-- ===== src/Tun/Bridge/Owner.antt =====
-- internal/tun/router.go: the one address that a session's channel may have.
use ghost_vpn.Base.{
  ℕ, ◌<◌, ◌≡◌, refl, true, false, not, ◌&&◌, Option, none, some, List, [], ◌∷◌, ◌++◌, Bytes, length,
  get_elem?, set, ltb, ◌==◌, arith, All, same, if_both, Bool-cases, inl, inr, sym, subst,
  length-append, length-set, Option-cases,
}
use ghost_vpn.Tun.Router.{
  Channel, TunRouter, route, remove, register, unregister, offer, runs, panics, Loop, close_channel,
  send_to, tun_write_queue,
}
use ghost_vpn.Tun.Bridge.Unrouted.{IsUnrouted}
use ghost_vpn.Tun.Bridge.Keeps.{IsKept}

-- No other address than `key` has channel `i`.
abbrev pub IsOnlyOf : Bytes → ℕ → List (Bytes × ℕ) → Type 0
IsOnlyOf key i routes = All (λ (e : Bytes × ℕ). ((e.1 == i) && not (same e.0 key)) ≡ false) routes

pub record IsOwned (key : Bytes) (i : ℕ) (r : TunRouter) : Type 0 where
  pub only : IsOnlyOf key i r.routes
  pub below : i < length r.channels

remove-IsOnlyOf :
    (key : Bytes) (i : ℕ) (k : Bytes) (m : List (Bytes × ℕ))
    → IsOnlyOf key i m
    → IsOnlyOf key i (remove k m)
remove-IsOnlyOf key i k [] u = tt
remove-IsOnlyOf key i k ((j, h) ∷ m) u =
    if_both (IsOnlyOf key i) (same j k) (remove-IsOnlyOf key i k m u.1)
      (u.0, remove-IsOnlyOf key i k m u.1)

-- Without that address, none has it.
pub remove-owner :
    (key : Bytes) (i : ℕ) (m : List (Bytes × ℕ)) → IsOnlyOf key i m → IsUnrouted i (remove key m)
remove-owner key i [] u = tt
remove-owner key i ((j, h) ∷ m) u = elim (Bool-cases (same j key)) [
  | inl here ↦ rw here (remove-owner key i m u.1)
  | inr there ↦
      let first = u.0 in rw there ((ground (arith, there, first), remove-owner key i m u.1))
]

close_channel-length :
    (channels : List Channel) (h : ℕ) (ch : Option Channel)
    → length (close_channel channels h ch) ≡ length channels
close_channel-length channels h none = refl
close_channel-length channels h (some ch) = length-set channels h (record ch { closed = true })

module _ (key : Bytes) where
  register-IsOwned :
      (k : Bytes) (r : TunRouter) (i : ℕ) → IsOwned key i r → IsOwned key i (register k r)
  unfolding register
  register-IsOwned k r i o =
      let below = o.below in
      record {
        only = (ground (arith, below), remove-IsOnlyOf key i k r.routes o.only);
        below =
            omega
              (arith, below, length-append r.channels (record { queue = []; closed = false } ∷ []));
      }

  unregister-IsOwned :
      (k : Bytes) (r : TunRouter) (i : ℕ) → IsOwned key i r → IsOwned key i (unregister k r)
  unfolding unregister
  unregister-IsOwned k r i o = elim (Option-cases (route k r.routes)) [
    | inl missing ↦
        rw (unregister, missing)
          (record { only = remove-IsOnlyOf key i k r.routes o.only; below = o.below })
    | inr (h, there) ↦
        rw (unregister, there)
          (record {
            only = remove-IsOnlyOf key i k r.routes o.only;
            below = subst (λ n. i < n) (sym (close_channel-length r.channels h _)) o.below;
          })
  ]

  abbrev LoopOwned : ℕ → Loop → Type 0
  LoopOwned i (runs r) = IsOwned key i r
  LoopOwned i panics = Unit

  changed-IsOwned :
      (h : ℕ) (ch : Channel) (r : TunRouter) (i : ℕ)
      → IsOwned key i r
      → IsOwned key i (record r { channels = set r.channels h ch })
  changed-IsOwned h ch r i o = record {
    only = o.only;
    below = subst (λ n. i < n) (sym (length-set r.channels h ch)) o.below;
  }

  send_to-IsOwned :
      (h : ℕ) (p : Bytes) (r : TunRouter) (i : ℕ) (ch : Option Channel)
      → IsOwned key i r
      → LoopOwned i (send_to h p r ch)
  send_to-IsOwned h p r i none o = o
  send_to-IsOwned h p r i (some ch) o = if_both (LoopOwned i) ch.closed tt (
      if_both (LoopOwned i) (ltb (length ch.queue) tun_write_queue)
        (changed-IsOwned h (record ch { queue = ch.queue ++ p ∷ [] }) r i o) o)

  offer-IsOwned :
      (h : ℕ) (p : Bytes) (r : TunRouter) (i : ℕ) {r' : TunRouter}
      → offer h p r ≡ runs r'
      → IsOwned key i r
      → IsOwned key i r'
  unfolding offer
  offer-IsOwned h p r i ran o =
      subst (LoopOwned i) ran (send_to-IsOwned h p r i (get_elem? r.channels h) o)

  pub IsOwned-IsKept : IsKept (IsOwned key)
  IsOwned-IsKept = record {
    popped = λ i ch rest r there o. changed-IsOwned i (record ch { queue = rest }) r i o;
    registered = register-IsOwned;
    unregistered = unregister-IsOwned;
    offered = offer-IsOwned;
  }
