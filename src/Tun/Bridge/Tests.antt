-- ===== src/Tun/Bridge/Tests.antt =====
-- Runs of a bridge.
use ghost_vpn.Base.{refl, true, false, none, some, [], ◌∷◌, ◌++◌, Bytes}
use ghost_vpn.Io.{eof, foreign}
use ghost_vpn.Tun.Router.{unregister, TunRouter, register, offer}
use ghost_vpn.Tun.Packet.{is_valid_ip_packet}
use ghost_vpn.Tun.Bridge.{from_stream}
use ghost_vpn.Tun.Bridge.Session.{
  Session, begin_session, first_written, Run, here, next, sends, reads, offers, ends, returns,
  read_round, receive, send_round,
}
use ghost_vpn.Tun.Bridge.Sent.{IsSent}
use ghost_vpn.Tun.Bridge.Order.{IsWritten, to_write, Run-Delivers}
use ghost_vpn.Tun.Bridge.Orphan.{come_back, come_back-IsOrphan, IsSending}
use ghost_vpn.Tun.Bridge.Unrouted.{IsOrphan}

-- An IPv4 header of 20 bytes, from 10.7.0.2 to 10.7.0.1.
abbrev packet : Bytes
packet = 69 ∷ 0 ∷ 0 ∷ 20 ∷ 0 ∷ 0 ∷ 0 ∷ 0 ∷ 64 ∷ 17 ∷ 0 ∷ 0 ∷ 10 ∷ 7 ∷ 0 ∷ 2 ∷ 10 ∷ 7 ∷ 0 ∷ 1 ∷ []

abbrev address : Bytes
address = 10 ∷ 7 ∷ 0 ∷ 2 ∷ []

abbrev no_sessions : TunRouter
no_sessions = record { channels = []; routes = [] }

abbrev begins : Session
unfolding register
begins = begin_session address (some packet) none no_sessions

-- A packet for the session is queued and written to the stream, and one from the stream is refused by
-- the device.
abbrev after : Session
after = record {
  router = record {
    channels = record { queue = []; closed = false } ∷ [];
    routes = (address, 0) ∷ [];
  };
  key = address;
  inbound = 0;
  sending = true;
  reading = false;
  errc = some (foreign 7) ∷ [];
  returned = none;
  sent = (1 ∷ []) ∷ [];
  to_device = packet ∷ [];
}

run : Run begins after ((1 ∷ []) ∷ []) (packet ∷ [])
unfolding offer send_round read_round from_stream register is_valid_ip_packet
run =
    next (next (next here (offers 0 (1 ∷ []) refl)) (sends none refl refl))
      (reads packet (some (foreign 7)) refl refl)

Run-Delivers_example :
    IsSent ((1 ∷ []) ∷ []) after
    × IsWritten (first_written (some packet) none ++ to_write (packet ∷ [])) after
unfolding begins
Run-Delivers_example = Run-Delivers address (some packet) none no_sessions run

-- The client comes back, the stream ends, and the call returns.
abbrev returned : Session
returned = record {
  router = record {
    channels = record { queue = []; closed = false } ∷ record { queue = []; closed = true } ∷ [];
    routes = [];
  };
  key = address;
  inbound = 0;
  sending = true;
  reading = false;
  errc = [];
  returned = some none;
  sent = [];
  to_device = packet ∷ [];
}

replaced :
    Run (come_back address (begin_session address (some packet) none no_sessions)) returned [] []
unfolding read_round receive register unregister
replaced = next (next here (ends eof refl refl)) (returns refl)

come_back-IsOrphan_example : IsOrphan 0 returned.router × IsSending none returned
unfolding register
come_back-IsOrphan_example =
    come_back-IsOrphan address (some packet) none no_sessions none
      {mid = begin_session address (some packet) none no_sessions} tt here refl replaced
