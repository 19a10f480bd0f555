-- ===== src/Tun/Tests.antt =====
-- Runs of the packet checks and of the router.
use ghost_vpn.Io.{Error, foreign, pos, ok}
use ghost_vpn.Tun.Device.{Command, set_up, DeviceConfig, System, Fits, new_device, new_device-Fits}
use ghost_vpn.Base.{◌≡◌, refl, true, false, none, some, [], ◌∷◌, Bytes, get_elem?, Option}
use ghost_vpn.Tun.Packet.{dst_ip_key}
use ghost_vpn.Tun.Router.{Channel, TunRouter, route, register, unregister}
use ghost_vpn.Tun.Router.Delivery.{stale_unregister}

-- An IPv4 header of 20 bytes, from 10.7.0.1 to 10.7.0.2.
abbrev packet : Bytes
packet = 69 ∷ 0 ∷ 0 ∷ 20 ∷ 0 ∷ 0 ∷ 0 ∷ 0 ∷ 64 ∷ 17 ∷ 0 ∷ 0 ∷ 10 ∷ 7 ∷ 0 ∷ 1 ∷ 10 ∷ 7 ∷ 0 ∷ 2 ∷ []

abbrev address : Bytes
address = 10 ∷ 7 ∷ 0 ∷ 2 ∷ []

packet_key : dst_ip_key packet ≡ address
unfolding dst_ip_key
packet_key = refl

abbrev open_channel : Channel
open_channel = record { queue = (1 ∷ []) ∷ []; closed = false }

abbrev router : TunRouter
router = record { channels = open_channel ∷ []; routes = (address, 0) ∷ [] }

stale_unregister_example :
    let r' = unregister address (register address router) in
    (route address r'.routes ≡ none)
    × (get_elem? r'.channels 1 ≡ some (record { queue = []; closed = true }))
    × (get_elem? r'.channels 0 ≡ some open_channel)
stale_unregister_example = stale_unregister address router 0 open_channel refl refl

-- The reply to the packet, its addresses exchanged.
abbrev reply : Bytes
reply = 69 ∷ 0 ∷ 0 ∷ 20 ∷ 0 ∷ 0 ∷ 0 ∷ 0 ∷ 64 ∷ 17 ∷ 0 ∷ 0 ∷ 10 ∷ 7 ∷ 0 ∷ 2 ∷ 10 ∷ 7 ∷ 0 ∷ 1 ∷ []

abbrev client_address : Bytes
client_address = 10 ∷ 7 ∷ 0 ∷ 1 ∷ []

abbrev refuses_up : Command → Option Error
refuses_up (set_up name) = some (foreign 1)
refuses_up _ = none

abbrev g0 : DeviceConfig
g0 = record { name = 103 ∷ 48 ∷ []; address = 49 ∷ []; mtu = pos 1400 }

-- A system on which bringing the device up fails.
abbrev half_way : System
half_way = record {
  opening = none;
  attaching = λ name. ok (103 ∷ 48 ∷ 0 ∷ []);
  nonblock = none;
  running = refuses_up;
}

new_device-Fits_example : Fits half_way g0 (new_device half_way g0)
new_device-Fits_example = new_device-Fits half_way g0
