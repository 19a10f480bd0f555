-- ===== src/Mux/Conn/Store.antt =====
-- internal/mux/conn.go: the streams of a connection under an update through a handle.
use ghost_vpn.Base.{
  ℕ, ◌≡◌, Option, none, some, inl, inr, List, get_elem?, ◌==◌, if◌then◌else◌, Option-cases, arith,
  get_elem?-set_self, get_elem?-set_ne, lt-length_of_get_elem?, Option, some,
}
use ghost_vpn.Mux.Stream.{Stream}
use ghost_vpn.Mux.Conn.{modify}

abbrev pub apply_found : (Stream → Stream) → Option Stream → Option Stream
apply_found f none = none
apply_found f (some s) = some (f s)

pub get_elem?-modify :
    (k h : ℕ) (f : Stream → Stream) (store : List Stream)
    → get_elem? (modify k f store) h
      ≡ (if k == h then apply_found f (get_elem? store h) else get_elem? store h)
get_elem?-modify k h f store = elim (Option-cases (get_elem? store k)) [
  | inl q ↦ ground arith
  | inr (s, q) ↦ ground (
    arith,
    get_elem?-set_self store k (f s),
    get_elem?-set_ne store k h (f s),
    lt-length_of_get_elem? store k q,
  )
]
