-- ===== src/Tun/Router.antt =====
-- internal/tun/router.go: `TunRouter`. The channels that goroutines hold are a store, and `routes`
-- maps an address to a channel. The read loop looks a channel up under the lock, and sends to it
-- after the lock is released: those are two steps.
pub mod Delivery
use ghost_vpn.Base.{
  ℕ, ◌+◌, Bool, true, false, Option, none, some, List, [], ◌∷◌, ◌++◌, Bytes, length, get_elem?, set,
  same, ltb, ◌==◌, if◌then◌else◌,
}
use ghost_vpn.Tun.Packet.{dst_ip_key}

-- const tunWriteQueue
abbrev pub tun_write_queue : ℕ
tun_write_queue = 512

pub record Channel : Type 0 where
  pub queue : List Bytes
  pub closed : Bool

pub record TunRouter : Type 0 where
  pub channels : List Channel
  pub routes : List (Bytes × ℕ)

-- `r.routes[key]` and `delete(r.routes, key)`
abbrev pub route : Bytes → List (Bytes × ℕ) → Option ℕ
route key [] = none
route key ((k, h) ∷ m) = if same k key then some h else route key m

abbrev pub remove : Bytes → List (Bytes × ℕ) → List (Bytes × ℕ)
remove key [] = []
remove key ((k, h) ∷ m) = if same k key then remove key m else (k, h) ∷ remove key m

-- `register`; the handle of the new channel is the length of the store before.
unfoldable pub register : Bytes → TunRouter → TunRouter
register key r = record {
  channels = r.channels ++ record { queue = []; closed = false } ∷ [];
  routes = (key, length r.channels) ∷ remove key r.routes;
}

-- `close(ch)`
abbrev pub close_channel : List Channel → ℕ → Option Channel → List Channel
close_channel channels h none = channels
close_channel channels h (some ch) = set channels h (record ch { closed = true })

unfoldable pub unregister : Bytes → TunRouter → TunRouter
unregister key r = elim (route key r.routes) [
  | none ↦ record r { routes = remove key r.routes }
  | some h ↦ record {
    channels = close_channel r.channels h (get_elem? r.channels h);
    routes = remove key r.routes;
  }
]

-- The read loop goes on, or its goroutine panics.
pub data Loop : Type 0 where
  runs : TunRouter → Loop
  panics : Loop

-- The `select` that sends to a channel or drops the packet; to send on a closed channel panics.
abbrev pub send_to : ℕ → Bytes → TunRouter → Option Channel → Loop
send_to h p r none = runs r
send_to h p r (some ch) =
    if ch.closed
    then panics
    else if ltb (length ch.queue) tun_write_queue
    then runs (record r { channels = set r.channels h (record ch { queue = ch.queue ++ p ∷ [] }) })
    else runs r

unfoldable pub offer : ℕ → Bytes → TunRouter → Loop
offer h p r = send_to h p r (get_elem? r.channels h)

-- The first step for a packet: the channel that it goes to.
unfoldable pub find_channel : Bytes → TunRouter → Option ℕ
find_channel p r =
    if length p == 0
    then none
    else if length (dst_ip_key p) == 0
    then none
    else route (dst_ip_key p) r.routes

abbrev offer_found : Option ℕ → Bytes → TunRouter → Loop
offer_found none p r = runs r
offer_found (some h) p r = offer h p r

-- A round of `readLoop` with nothing in between.
unfoldable pub read_packet : Bytes → TunRouter → Loop
read_packet p r = offer_found (find_channel p r) p r
