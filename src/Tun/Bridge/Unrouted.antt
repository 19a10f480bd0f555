-- ===== src/Tun/Bridge/Unrouted.antt =====
-- internal/tun/router.go: a channel that no address has, whatever is done to the router.
use ghost_vpn.Base.{
  ℕ, ◌<◌, ◌≡◌, refl, Bool, true, false, Option, none, some, List, [], ◌∷◌, ◌++◌, Bytes, length,
  get_elem?, set, ltb, ◌==◌, arith, All, same, if_both, Bool-cases, Option-cases, inl, inr, ap, ◌∙◌,
  get_elem?-append_left, lt-length_of_get_elem?, get_elem?-set_self, get_elem?-set_ne, subst,
}
use ghost_vpn.Tun.Router.{
  Channel, TunRouter, route, remove, register, unregister, offer, runs, panics, Loop, close_channel,
  send_to, tun_write_queue,
}

abbrev pub closed_of : Option Channel → Option Bool
closed_of none = none
closed_of (some ch) = some ch.closed

-- Whether channel `i` is closed.
abbrev pub closed_at : ℕ → TunRouter → Option Bool
closed_at i r = closed_of (get_elem? r.channels i)

-- No address has the channel.
abbrev pub IsUnrouted : ℕ → List (Bytes × ℕ) → Type 0
IsUnrouted i routes = All (λ (e : Bytes × ℕ). (e.1 == i) ≡ false) routes

-- A channel that no address has, and that is open.
pub record IsOrphan (i : ℕ) (r : TunRouter) : Type 0 where
  pub unrouted : IsUnrouted i r.routes
  pub lasts : closed_at i r ≡ some false

pub remove-IsUnrouted :
    (i : ℕ) (k : Bytes) (m : List (Bytes × ℕ)) → IsUnrouted i m → IsUnrouted i (remove k m)
remove-IsUnrouted i k [] u = tt
remove-IsUnrouted i k ((j, h) ∷ m) u =
    if_both (IsUnrouted i) (same j k) (remove-IsUnrouted i k m u.1)
      (u.0, remove-IsUnrouted i k m u.1)

route_unrouted :
    (i : ℕ) (k : Bytes) (m : List (Bytes × ℕ)) {h : ℕ}
    → IsUnrouted i m
    → route k m ≡ some h
    → h == i ≡ false
route_unrouted i k [] u q = absurd (ground (arith, q))
route_unrouted i k ((j, h) ∷ m) u q = elim (Bool-cases (same j k)) [
  | inl here ↦ let first = u.0 in ground (arith, here, q, first)
  | inr there ↦ route_unrouted i k m u.1 (rw there at q)
]

present : (i : ℕ) (r : TunRouter) → closed_at i r ≡ some false → i < length r.channels
present i r q = elim (Option-cases (get_elem? r.channels i)) [
  | inl missing ↦ absurd (ground (arith, missing))
  | inr (ch, there) ↦ lt-length_of_get_elem? r.channels i there
]

pub set_closed :
    (h i : ℕ) (channels : List Channel) (ch ch' : Channel)
    → get_elem? channels h ≡ some ch
    → ch'.closed ≡ ch.closed
    → closed_of (get_elem? (set channels h ch') i) ≡ closed_of (get_elem? channels i)
set_closed h i channels ch ch' there same_one = elim (Bool-cases (h == i)) [
  | inl same ↦
      ground (
        arith,
        same_one,
        lt-length_of_get_elem? channels h there,
        get_elem?-set_self channels h ch',
      )
  | inr other ↦ ap closed_of (get_elem?-set_ne channels h i ch' (ground arith))
]

pub register-IsOrphan :
    (k : Bytes) (r : TunRouter) (i : ℕ) → IsOrphan i r → IsOrphan i (register k r)
unfolding register
register-IsOrphan k r i o =
    let below = present i r o.lasts in
    record {
      unrouted = (ground arith, remove-IsUnrouted i k r.routes o.unrouted);
      lasts = ap closed_of (get_elem?-append_left r.channels _ i below) ∙ o.lasts;
    }

pub unregister-IsOrphan :
    (k : Bytes) (r : TunRouter) (i : ℕ) → IsOrphan i r → IsOrphan i (unregister k r)
unfolding unregister
unregister-IsOrphan k r i o = elim (Option-cases (route k r.routes)) [
  | inl missing ↦
      rw (unregister, missing)
        (record { unrouted = remove-IsUnrouted i k r.routes o.unrouted; lasts = o.lasts })
  | inr (h, there) ↦
      rw (unregister, there)
        (record {
          unrouted = remove-IsUnrouted i k r.routes o.unrouted;
          lasts =
              closed_elsewhere r.channels h i (get_elem? r.channels h)
                (route_unrouted i k r.routes o.unrouted there)
              ∙ o.lasts;
        })
]
  where
    closed_elsewhere :
        (channels : List Channel) (h i : ℕ) (ch : Option Channel)
        → h == i ≡ false
        → closed_of (get_elem? (close_channel channels h ch) i) ≡ closed_of (get_elem? channels i)
    closed_elsewhere channels h i none ne = refl
    closed_elsewhere channels h i (some ch) ne =
        ap closed_of (get_elem?-set_ne channels h i (record ch { closed = true }) (ground arith))

abbrev LoopKeeps : ℕ → Loop → Type 0
LoopKeeps i (runs r) = IsOrphan i r
LoopKeeps i panics = Unit

send_to-IsOrphan :
    (h : ℕ) (p : Bytes) (r : TunRouter) (i : ℕ) (ch : Option Channel)
    → get_elem? r.channels h ≡ ch
    → IsOrphan i r
    → LoopKeeps i (send_to h p r ch)
send_to-IsOrphan h p r i none there o = o
send_to-IsOrphan h p r i (some ch) there o = if_both (LoopKeeps i) ch.closed tt (
    if_both (LoopKeeps i) (ltb (length ch.queue) tun_write_queue)
      (record {
        unrouted = o.unrouted;
        lasts =
            set_closed h i r.channels ch (record ch { queue = ch.queue ++ p ∷ [] }) there refl
            ∙ o.lasts;
      })
      o)

pub offer-IsOrphan :
    (h : ℕ) (p : Bytes) (r : TunRouter) (i : ℕ) {r' : TunRouter}
    → offer h p r ≡ runs r'
    → IsOrphan i r
    → IsOrphan i r'
unfolding offer
offer-IsOrphan h p r i ran o =
    subst (LoopKeeps i) ran (send_to-IsOrphan h p r i (get_elem? r.channels h) refl o)
