-- ===== src/Tun/Bridge/Queues.antt =====
-- internal/tun/router.go: the queue of a channel, whatever is done to the router.
use ghost_vpn.Base.{
  ℕ, ◌≡◌, refl, true, Option, none, some, List, [], ◌∷◌, ◌++◌, Bytes, length, get_elem?, set, ltb,
  ◌==◌, if◌then◌else◌, arith, Option-cases, inl, Bool-cases, inr, lt-length_of_get_elem?,
  get_elem?-append_left, get_elem?-set_self, get_elem?-set_ne, append-nil, if_both, subst,
}
use ghost_vpn.Tun.Router.{
  Channel, TunRouter, panics, Loop, route, register, unregister, offer, runs, send_to,
  close_channel, Loop, tun_write_queue,
}
use ghost_vpn.Tun.Bridge.Session.{accepted}

-- The queue of a channel.
abbrev pub queue_of : Option Channel → Option (List Bytes)
queue_of none = none
queue_of (some ch) = some ch.queue

abbrev pub queue_at : ℕ → TunRouter → Option (List Bytes)
queue_at i r = queue_of (get_elem? r.channels i)

pub register-queue :
    (k : Bytes) (r : TunRouter) (i : ℕ) {q : List Bytes}
    → queue_at i r ≡ some q
    → queue_at i (register k r) ≡ some q
unfolding register
register-queue k r i {q} h = elim (Option-cases (get_elem? r.channels i)) [
  | inl missing ↦ absurd (ground (arith, missing))
  | inr (ch, there) ↦
      rw (get_elem?-append_left r.channels _ i (lt-length_of_get_elem? r.channels i there)) h
]

close_channel-queue :
    (channels : List Channel) (j i : ℕ) (ch : Option Channel)
    → get_elem? channels j ≡ ch
    → queue_of (get_elem? (close_channel channels j ch) i) ≡ queue_of (get_elem? channels i)
close_channel-queue channels j i none h = refl
close_channel-queue channels j i (some ch) h = elim (Bool-cases (j == i)) [
  | inl same ↦ ground (
    arith,
    lt-length_of_get_elem? channels j h,
    get_elem?-set_self channels j (record ch { closed = true }),
  )
  | inr other ↦ rw (get_elem?-set_ne channels j i _ (ground arith)) refl
]

pub unregister-queue :
    (k : Bytes) (r : TunRouter) (i : ℕ) → queue_at i (unregister k r) ≡ queue_at i r
unfolding unregister
unregister-queue k r i = elim (Option-cases (route k r.routes)) [
  | inl missing ↦ rw (unregister, missing) refl
  | inr (h, there) ↦ rw (unregister, there) (close_channel-queue r.channels h i _ refl)
]

abbrev OnLoop : (TunRouter → Type 0) → Loop → Type 0
OnLoop P (runs r) = P r
OnLoop P panics = Unit

-- The channel with one packet more at its end.
pushed-queue :
    (h : ℕ) (p : Bytes) (channels : List Channel) (i : ℕ) (ch : Channel) (q : List Bytes)
    → get_elem? channels h ≡ some ch
    → queue_of (get_elem? channels i) ≡ some q
    → queue_of (get_elem? (set channels h (record ch { queue = ch.queue ++ p ∷ [] })) i)
      ≡ some (q ++ (if h == i then p ∷ [] else []))
pushed-queue h p channels i ch q there was = elim (Bool-cases (h == i)) [
  | inl same ↦ ground (
    arith,
    get_elem?-set_self channels h (record ch { queue = ch.queue ++ p ∷ [] }),
    lt-length_of_get_elem? channels h there,
  )
  | inr other ↦
      rw
        (
          other,
          get_elem?-set_ne channels h i (record ch { queue = ch.queue ++ p ∷ [] }) (ground arith),
        )
        (rw append-nil was)
]

send_to-queue :
    (h : ℕ) (p : Bytes) (r : TunRouter) (i : ℕ) (ch : Option Channel) (q : List Bytes)
    → get_elem? r.channels h ≡ ch
    → queue_at i r ≡ some q
    → OnLoop (λ r'. queue_at i r' ≡ some (q ++ accepted h p ch i)) (send_to h p r ch)
send_to-queue h p r i none q there was = rw append-nil was
send_to-queue h p r i (some ch) q there was =
    if_both (OnLoop (λ r'. queue_at i r' ≡ some (q ++ accepted h p (some ch) i))) ch.closed tt
      (elim (Bool-cases (ltb (length ch.queue) tun_write_queue)) [
        | inl fits ↦ rw fits (pushed-queue h p r.channels i ch q there was)
        | inr full ↦ rw full (ground (arith, append-nil q, was))
      ])

pub offer-queue :
    (h : ℕ) (p : Bytes) (r : TunRouter) (i : ℕ) (q : List Bytes) {r' : TunRouter}
    → offer h p r ≡ runs r'
    → queue_at i r ≡ some q
    → queue_at i r' ≡ some (q ++ accepted h p (get_elem? r.channels h) i)
unfolding offer
offer-queue h p r i q ran was =
    subst (OnLoop (λ r'. queue_at i r' ≡ some (q ++ accepted h p (get_elem? r.channels h) i))) ran
      (send_to-queue h p r i (get_elem? r.channels h) q refl was)
