-- ===== src/Mux/Stream/Reading.antt =====
-- internal/mux/stream.go, read side: `Read`, `deliverData` and `deliverErr` against a queue of
-- messages.
pub mod History
use ghost_vpn.Base.{
  ℕ, ◌-◌, ◌<◌, ◌≡◌, ◌≢◌, refl, sym, ap, ◌∙◌, ◌⊎◌, inl, inr, Option, none, some, List, [], ◌∷◌, ◌++◌,
  Bytes, length, take, drop, min, leb, if◌then◌else◌, concat, arith, take-min-length, take_cast,
  length-drop, drop-drop, append_assoc, append-nil, take-append-drop, concat-append, take_all,
  Option-cases,
}
use ghost_vpn.Io.{Error}
use ghost_vpn.Mux.Stream.{Stream, read, deliver_data, deliver_err}

-- The offset lies inside the first message of the queue.
abbrev pub OffsetIn : ℕ → List Bytes → Type 0
OffsetIn off [] = off ≡ 0
OffsetIn off (m ∷ ms) = (off ≡ 0) ⊎ (off < length m)

abbrev pub IsValid : Stream → Type 0
IsValid s = OffsetIn s.read_off s.read_msgs

-- The messages, or what is left of the first, that a reader has not seen.
abbrev pub unread_from : ℕ → List Bytes → List Bytes
unread_from off [] = []
unread_from off (m ∷ ms) = drop off m ∷ ms

abbrev pub unread : Stream → List Bytes
unread s = unread_from s.read_off s.read_msgs

-- A read of a queue of messages: from the first message only, up to `k` bytes; a message is gone
-- once all of it is read. An error is returned once the queue is empty; before it, a call waits.
abbrev pub read_messages :
    ℕ → List Bytes → Option Error → Option (List Bytes × Bytes × Option Error)
read_messages k [] none = none
read_messages k [] (some e) = some ([], [], some e)
read_messages k (m ∷ ms) e = some (if leb (length m) k then ms else drop k m ∷ ms, take k m, none)

-- What is seen of a read through `unread`.
abbrev pub seen :
    Option (Stream × Bytes × Option Error) → Option (List Bytes × Bytes × Option Error)
seen none = none
seen (some (s, got, e)) = some (unread s, got, e)

unread_from-zero : (ms : List Bytes) → unread_from 0 ms ≡ ms
unread_from-zero [] = refl
unread_from-zero (m ∷ ms) = refl

read_refines_at :
    (s : Stream) (k : ℕ) (msgs : List Bytes) (e : Option Error)
    → s.read_msgs ≡ msgs
    → s.read_err ≡ e
    → OffsetIn s.read_off msgs
    → seen (read s k) ≡ read_messages k (unread_from s.read_off msgs) e
unfolding read
read_refines_at s k [] none p q v = rw (p, q)
read_refines_at s k [] (some e) p q v = rw (p, q)
read_refines_at s k (m ∷ ms) e p q v =
    let n = min k (length m - s.read_off) in
    ground (
      arith,
      length-drop s.read_off m,
      drop-drop s.read_off n m,
      take_cast (drop s.read_off m) {m = n} {n = min k (length (drop s.read_off m))},
      take-min-length k (drop s.read_off m),
      unread_from-zero ms,
    )

-- On a stream whose offset is in range, `Read` is the read of its unread messages: it returns bytes
-- of the first message only, removes exactly those, returns the stream's error once every message
-- is read, and waits only if there is neither a message nor an error.
pub read_refines :
    (s : Stream) (k : ℕ) → IsValid s → seen (read s k) ≡ read_messages k (unread s) s.read_err
read_refines s k v = read_refines_at s k s.read_msgs s.read_err refl refl v

read-IsValid_at :
    (s : Stream) (k : ℕ) (msgs : List Bytes) (e : Option Error)
    → s.read_msgs ≡ msgs
    → s.read_err ≡ e
    → IsValid s
    → {s' : Stream} {got : Bytes} {e' : Option Error} → read s k ≡ some (s', got, e')
    → IsValid s' × (s'.read_err ≡ e) × (s'.id ≡ s.id)
unfolding read
read-IsValid_at s k [] none p q v h = absurd (ground arith)
read-IsValid_at s k [] (some e) p q v h = ground arith
read-IsValid_at s k (m ∷ []) e p q v h = ground arith
read-IsValid_at s k (m ∷ m' ∷ ms) e p q v h = ground arith

OffsetIn-append :
    (off : ℕ) (ms : List Bytes) (p : Bytes) → OffsetIn off ms → OffsetIn off (ms ++ p ∷ [])
OffsetIn-append off [] p v = inl v
OffsetIn-append off (m ∷ ms) p v = v

pub unread_from-append :
    (off : ℕ) (ms : List Bytes) (p : Bytes)
    → OffsetIn off ms
    → unread_from off (ms ++ p ∷ []) ≡ unread_from off ms ++ p ∷ []
unread_from-append off [] p v = rw v
unread_from-append off (m ∷ ms) p v = refl

pub deliver_data-IsValid : (p : Bytes) (s : Stream) → IsValid s → IsValid (deliver_data p s)
unfolding deliver_data
deliver_data-IsValid p s v = ground (arith, OffsetIn-append s.read_off s.read_msgs p)

pub deliver_err-IsValid : (e : Error) (s : Stream) → IsValid s → IsValid (deliver_err e s)
unfolding deliver_err
deliver_err-IsValid e s v = ground arith

pub read-IsValid :
    (s : Stream) (k : ℕ) {s' : Stream} {got : Bytes} {e : Option Error}
    → IsValid s
    → read s k ≡ some (s', got, e)
    → IsValid s' × (s'.read_err ≡ s.read_err) × (s'.id ≡ s.id)
read-IsValid s k v h = read-IsValid_at s k s.read_msgs s.read_err refl refl v h

pub unread-deliver_err : (e : Error) (s : Stream) → unread (deliver_err e s) ≡ unread s
unfolding deliver_err
unread-deliver_err e s = ground arith

pub deliver_err_ends :
    (e : Error) (s : Stream) → (x : Error) × ((deliver_err e s).read_err ≡ some x)
unfolding deliver_err
deliver_err_ends e s = elim (Option-cases s.read_err) [
  | inl q ↦ (e, ground arith)
  | inr (x, q) ↦ (x, ground arith)
]

-- A delivered message is the last unread one, unless the stream has an error already.
pub deliver_data_open :
    (p : Bytes) (s : Stream)
    → IsValid s
    → s.read_err ≡ none
    → ((deliver_data p s).read_err ≡ none)
      × (concat (unread (deliver_data p s)) ≡ concat (unread s) ++ p)
unfolding deliver_data
deliver_data_open p s v q = ground (
  arith,
  unread_from-append s.read_off s.read_msgs p,
  concat-append (unread s) (p ∷ []),
  append-nil p,
)

-- A stream with an error never makes a reader wait.
pub read_returns : (s : Stream) (k : ℕ) {e : Error} → s.read_err ≡ some e → read s k ≢ none
unfolding read
read_returns s k q = go s.read_msgs refl
  where
    go : (msgs : List Bytes) → s.read_msgs ≡ msgs → read s k ≢ none
    go [] p w = ground arith
    go (m ∷ ms) p w = ground arith
