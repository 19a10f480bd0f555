-- ===== src/Client/Packets.antt =====
-- cmd/ghost-client/main.go: the packets from the TUN device to the active session.
use ghost_vpn.Base.{
  ℕ, Bool-cases, if_both, subst, zero, suc, ◌+◌, ◌≤◌, ◌≡◌, refl, sym, ap, ◌∙◌, Bool, Option, none,
  some, List, [], ◌∷◌, ◌++◌, Bytes, length, ltb, ◌==◌, if◌then◌else◌, arith, inl, inr, append_assoc,
  length-append,
}

abbrev pub tun_client_queue : ℕ
tun_client_queue = 512

-- The two goroutines with the channel between them, and what the device gave and the writer took.
pub record Pipeline : Type 0 where
  pub queue : List Bytes
  pub read : List Bytes
  pub taken : List Bytes

abbrev pub idle : Pipeline
idle = record { queue = []; read = []; taken = [] }

-- The reader with a packet of `n` bytes: an empty one is skipped, and one that finds the queue full
-- is dropped.
unfoldable pub read_packet : Bytes → Pipeline → Pipeline
read_packet packet w =
    if length packet == 0
    then w
    else if ltb (length w.queue) tun_client_queue
    then record w { read = w.read ++ packet ∷ []; queue = w.queue ++ packet ∷ [] }
    else record w { read = w.read ++ packet ∷ [] }

abbrev pub take_next : Pipeline → List Bytes → Pipeline
take_next w [] = w
take_next w (packet ∷ rest) = record w { queue = rest; taken = w.taken ++ packet ∷ [] }

unfoldable pub take_packet : Pipeline → Pipeline
take_packet w = take_next w w.queue

-- The writer's loop over a packet: what each try finds, a session whose stream took the packet
-- (true) or not, or none. What is left is the number of tries; the session that took it is returned.
unfoldable pub write_packet :
    (tries : ℕ) → (active : ℕ → Option ℕ) → (writes : ℕ → ℕ → Bool) → ℕ → Option ℕ
write_packet zero active writes at = none
write_packet (suc tries) active writes at =
    let rest = write_packet tries active writes (at + 1) in
    elim (active at) [
      | none ↦ rest
      | some session ↦ if writes at session then some session else rest
    ]

-- `Kept xs ys`: `ys` is `xs` without some of its packets, in the same order.
pub data Kept : List Bytes → List Bytes → Type 0 where
  end : Kept [] []
  skip : {x : Bytes} {xs ys : List Bytes} → Kept xs ys → Kept (x ∷ xs) ys
  keep : {x : Bytes} {xs ys : List Bytes} → Kept xs ys → Kept (x ∷ xs) (x ∷ ys)

pub data Step (w : Pipeline) : Pipeline → Type 0 where
  reading : (packet : Bytes) → Step w (read_packet packet w)
  taking : Step w (take_packet w)

pub data Reach : Pipeline → Type 0 where
  here : Reach idle
  next : {w w' : Pipeline} → Reach w → Step w w' → Reach w'

Kept-skip_last : {xs ys : List Bytes} (p : Bytes) → Kept xs ys → Kept (xs ++ p ∷ []) ys
Kept-skip_last p end = skip end
Kept-skip_last p (skip k) = skip (Kept-skip_last p k)
Kept-skip_last p (keep k) = keep (Kept-skip_last p k)

Kept-keep_last : {xs ys : List Bytes} (p : Bytes) → Kept xs ys → Kept (xs ++ p ∷ []) (ys ++ p ∷ [])
Kept-keep_last p end = keep end
Kept-keep_last p (skip k) = skip (Kept-keep_last p k)
Kept-keep_last p (keep k) = keep (Kept-keep_last p k)

pub record IsOrdered (w : Pipeline) : Type 0 where
  pub in_order : Kept w.read (w.taken ++ w.queue)
  pub bounded : length w.queue ≤ tun_client_queue

read_packet-IsOrdered : (p : Bytes) (w : Pipeline) → IsOrdered w → IsOrdered (read_packet p w)
unfolding read_packet
read_packet-IsOrdered p w o =
    if_both IsOrdered (length p == 0) o (elim (Bool-cases (ltb (length w.queue) tun_client_queue)) [
      | inl fits ↦ rw fits (record {
        in_order =
            subst (Kept (w.read ++ p ∷ [])) (append_assoc w.taken w.queue (p ∷ []))
              (Kept-keep_last p o.in_order);
        bounded = ground (arith, length-append w.queue (p ∷ []));
      })
      | inr full ↦ rw full (record { in_order = Kept-skip_last p o.in_order; bounded = o.bounded })
    ])

take_next-IsOrdered :
    (w : Pipeline) (queue : List Bytes)
    → w.queue ≡ queue
    → IsOrdered w
    → IsOrdered (take_next w queue)
take_next-IsOrdered w [] q o = o
take_next-IsOrdered w (p ∷ rest) q o = record {
  in_order =
      subst (Kept w.read) (ap (◌++◌ w.taken) q ∙ sym (append_assoc w.taken (p ∷ []) rest))
        o.in_order;
  bounded = let before = o.bounded in ground (arith, q, before);
}

step-IsOrdered : {w w' : Pipeline} → IsOrdered w → Step w w' → IsOrdered w'
unfolding take_packet
step-IsOrdered {w} o (reading p) = read_packet-IsOrdered p w o
step-IsOrdered {w} o taking = take_next-IsOrdered w w.queue refl o

-- However the reader and the writer take turns: the packets that the writer took and those that wait
-- are among the packets that the device gave, in the order in which it gave them and none twice, and
-- at most 512 of them wait.
pub Reach-IsOrdered : {w : Pipeline} → Reach w → IsOrdered w
Reach-IsOrdered here = record { in_order = end; bounded = omega arith }
Reach-IsOrdered (next r s) = step-IsOrdered (Reach-IsOrdered r) s
