-- ===== src/Tun/Bridge.antt =====
-- internal/tun/router.go: `TunRouter.Bridge`, up to the goroutines that it starts, and what the one
-- that reads the stream does with a packet.
pub mod Session
pub mod Balance
pub mod Queues
pub mod Sent
pub mod Order
pub mod Unrouted
pub mod Keeps
pub mod Owner
pub mod Orphan
mod Tests
use ghost_vpn.Base.{
  ℕ, ◌≡◌, ◌<◌, Option, none, some, Bytes, length, same_refl, ◌==◌, if◌then◌else◌, arith,
}
use ghost_vpn.Tun.Packet.{is_valid_ip_packet, src_ip_key, dst_ip_key}
use ghost_vpn.Tun.Router.{TunRouter, register, find_channel}

-- The first packet is no IP packet, or the client is registered under this address; some packet is
-- what is written to the device.
pub data Begun : Type 0 where
  not_ip : ℕ → Begun
  begun : Bytes → TunRouter → Option Bytes → Begun

-- A packet from the stream: what is written to the device.
unfoldable pub from_stream : Bytes → Option Bytes
from_stream p = if length p == 0 then none else if is_valid_ip_packet p then some p else none

unfoldable pub begin_bridge : Bytes → TunRouter → Begun
begin_bridge first r =
    let key = src_ip_key first in
    if length key == 0
    then not_ip (length first)
    else begun key (register key r) (if is_valid_ip_packet first then some first else none)

-- Once a client's first packet is read, the replies to its address, whatever else is routed, find the
-- channel of that client.
pub begin_bridge_replies :
    (first reply : Bytes) (r : TunRouter) {key : Bytes} {r' : TunRouter} {out : Option Bytes}
    → begin_bridge first r ≡ begun key r' out
    → dst_ip_key reply ≡ src_ip_key first
    → 0 < length reply
    → find_channel reply r' ≡ some (length r.channels)
unfolding begin_bridge register find_channel
begin_bridge_replies first reply r h to some_bytes = ground (arith, same_refl (src_ip_key first))
