-- ===== src/Tun/Router/Delivery.antt =====
-- internal/tun/router.go: where packets go, and what sessions do to each other.
use ghost_vpn.Base.{
  ℕ, ◌≡◌, ◌≢◌, refl, true, false, none, some, List, [], ◌∷◌, ◌++◌, Bytes, length, get_elem?, set,
  same_refl, ltb, if◌then◌else◌, arith, get_elem?-set_self, get_elem?-set_ne, get_elem?-append_end,
  lt-length_of_get_elem?, get_elem?-append_left,
}
use ghost_vpn.Tun.Router.{
  Channel, TunRouter, route, remove, register, unregister, runs, panics, offer, find_channel,
  read_packet, tun_write_queue,
}

remove-route : (key : Bytes) (m : List (Bytes × ℕ)) → route key (remove key m) ≡ none
remove-route key [] = refl
remove-route key ((k, h) ∷ m) = ground (arith, remove-route key m)

-- A packet for an address with an open channel goes to the end of that channel's queue, or is dropped
-- where the queue is full; no other channel and no route changes.
pub read_packet_delivers :
    (p : Bytes) (r : TunRouter) (h : ℕ) (ch : Channel)
    → find_channel p r ≡ some h
    → get_elem? r.channels h ≡ some ch
    → ch.closed ≡ false
    → (r' : TunRouter) × (read_packet p r ≡ runs r')
      × (get_elem? r'.channels h
          ≡ some (
              if ltb (length ch.queue) tun_write_queue
              then record ch { queue = ch.queue ++ p ∷ [] }
              else ch))
      × ((j : ℕ) → j ≢ h → get_elem? r'.channels j ≡ get_elem? r.channels j)
      × (r'.routes ≡ r.routes)
unfolding read_packet offer
read_packet_delivers p r h ch found there live = (
  record r {
    channels =
        if ltb (length ch.queue) tun_write_queue
        then set r.channels h (record ch { queue = ch.queue ++ p ∷ [] })
        else r.channels;
  },
  ground (arith, found, there),
  ground (
    arith,
    get_elem?-set_self r.channels h (record ch { queue = ch.queue ++ p ∷ [] }),
    lt-length_of_get_elem? r.channels h there,
  ),
  λ j ne.
      ground (arith, get_elem?-set_ne r.channels h j (record ch { queue = ch.queue ++ p ∷ [] })),
  refl,
)

-- A session that ends after the read loop has looked its channel up, and before it sends, makes the
-- read loop panic.
pub unregister_panics :
    (key p : Bytes) (r : TunRouter) (h : ℕ) (ch : Channel)
    → route key r.routes ≡ some h
    → get_elem? r.channels h ≡ some ch
    → offer h p (unregister key r) ≡ panics
unfolding offer unregister
unregister_panics key p r h ch found there = ground (
  arith,
  get_elem?-set_self r.channels h (record ch { closed = true }),
  lt-length_of_get_elem? r.channels h there,
)

-- Where a client comes back under its address before its old session has ended, the end of the old
-- session takes the route of the new one away and closes its channel, and leaves its own open.
pub stale_unregister :
    (key : Bytes) (r : TunRouter) (old : ℕ) (ch : Channel)
    → route key r.routes ≡ some old
    → get_elem? r.channels old ≡ some ch
    → let r' = unregister key (register key r) in
      (route key r'.routes ≡ none)
      × (get_elem? r'.channels (length r.channels) ≡ some (record { queue = []; closed = true }))
      × (get_elem? r'.channels old ≡ some ch)
unfolding unregister register
stale_unregister key r old ch was there =
    let fresh : Channel = record { queue = []; closed = false } in
    let both = r.channels ++ fresh ∷ [] in
    let below = lt-length_of_get_elem? r.channels old there in
    ground (
      arith,
      same_refl key,
      remove-route key r.routes,
      remove-route key (remove key r.routes),
      get_elem?-append_end r.channels fresh,
      get_elem?-append_left r.channels (fresh ∷ []) old below,
      lt-length_of_get_elem? both (length r.channels) {v = fresh}
          (get_elem?-append_end r.channels fresh),
      get_elem?-set_self both (length r.channels) (record { queue = []; closed = true }),
      get_elem?-set_ne both (length r.channels) old (record { queue = []; closed = true }),
    )
