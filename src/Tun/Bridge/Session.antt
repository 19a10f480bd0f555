-- ===== src/Tun/Bridge/Session.antt =====
-- internal/tun/router.go: the two goroutines of `TunRouter.Bridge` and the call that waits for them.
-- The router is shared: between any two steps its read loop and other sessions may change it. What a
-- Read or a Write returns is an argument; `none` is a step that has to wait.
use ghost_vpn.Base.{
  ℕ, ◌≡◌, Bool, true, false, Option, none, some, List, [], ◌∷◌, ◌++◌, Bytes, length, get_elem?, set,
  ltb, ◌==◌, if◌then◌else◌,
}
use ghost_vpn.Io.{Error, eof, Result, ok, err}
use ghost_vpn.Tun.Router.{Channel, TunRouter, register, unregister, runs, offer, tun_write_queue}
use ghost_vpn.Tun.Bridge.{from_stream}

-- The variables of the call, and what the device and the stream have taken.
pub record Session : Type 0 where
  pub router : TunRouter
  pub key : Bytes
  pub inbound : ℕ
  -- the goroutine from the channel to the stream, and the one from the stream to the device, run
  pub sending : Bool
  pub reading : Bool
  pub errc : List (Option Error)
  -- what the call has returned
  pub returned : Option (Option Error)
  pub sent : List Bytes
  pub to_device : List Bytes

-- The capacity of `errc`.
abbrev pub errc_size : ℕ
errc_size = 2

-- `errc <- e`
abbrev pub put : Option Error → Session → Option Session
put e s =
    if ltb (length s.errc) errc_size then some (record s { errc = s.errc ++ e ∷ [] }) else none

abbrev pub set_channel : ℕ → Channel → TunRouter → TunRouter
set_channel h ch r = record r { channels = set r.channels h ch }

-- What was written to the device, and the error that ends the goroutine otherwise.
abbrev pub device_wrote : Bytes → Option Error → Session → Option Session
device_wrote p none s = some (record s { to_device = s.to_device ++ p ∷ [] })
device_wrote p (some e) s = put (some e) (record s { reading = false })

abbrev pub stream_wrote : Bytes → Option Error → Session → Option Session
stream_wrote p none s = some (record s { sent = s.sent ++ p ∷ [] })
stream_wrote p (some e) s = put (some e) (record s { sending = false })

-- A round of `for pkt := range inbound`, and its end.
abbrev pub send_from : Option Error → Channel → List Bytes → Session → Option Session
send_from w ch [] s = if ch.closed then put none (record s { sending = false }) else none
send_from w ch (p ∷ rest) s =
    stream_wrote p w
      (record s { router = set_channel s.inbound (record ch { queue = rest }) s.router })

abbrev pub send_on : Option Error → Session → Option Channel → Option Session
send_on w s none = none
send_on w s (some ch) = send_from w ch ch.queue s

unfoldable pub send_round : Option Error → Session → Option Session
send_round w s = send_on w s (get_elem? s.router.channels s.inbound)

-- The end of a stream is no error.
abbrev pub reported : Error → Option Error
reported eof = none
reported e = some e

-- A round of the loop from the stream to the device.
abbrev pub pass_on : Option Bytes → Option Error → Session → Option Session
pass_on none w s = some s
pass_on (some p) w s = device_wrote p w s

abbrev pub read_got : Result Bytes → Option Error → Session → Option Session
read_got (err e) w s = put (reported e) (record s { reading = false })
read_got (ok p) w s = pass_on (from_stream p) w s

unfoldable pub read_round : Result Bytes → Option Error → Session → Option Session
read_round got w s = read_got got w s

-- `return <-errc`, with the deferred `unregister`.
abbrev pub receive_from : List (Option Error) → Session → Option Session
receive_from [] s = none
receive_from (e ∷ rest) s =
    some (record s { errc = rest; returned = some e; router = unregister s.key s.router })

abbrev pub receive_unless : Option (Option Error) → Session → Option Session
receive_unless none s = receive_from s.errc s
receive_unless (some _) s = none

unfoldable pub receive : Session → Option Session
receive s = receive_unless s.returned s

-- The call when both goroutines start: the client is registered, and the first packet, if it is a
-- packet at all, was written, unless the device refused it.
abbrev pub first_written : Option Bytes → Option Error → List Bytes
first_written none w = []
first_written (some p) none = p ∷ []
first_written (some p) (some e) = []

abbrev pub begin_session : Bytes → Option Bytes → Option Error → TunRouter → Session
begin_session key out w r = record {
  router = register key r;
  key = key;
  inbound = length r.channels;
  sending = true;
  reading = true;
  errc = [];
  returned = none;
  sent = [];
  to_device = first_written out w;
}

-- What the channel `h` accepts of a packet for channel `j`.
abbrev pub accepted : ℕ → Bytes → Option Channel → ℕ → List Bytes
accepted j p none h = []
accepted j p (some ch) h =
    if j == h then if ltb (length ch.queue) tun_write_queue then p ∷ [] else [] else []

-- A step, with the packets that the session's channel accepts in it, and those that the stream gives.
pub data Step (s : Session) : Session → List Bytes → List Bytes → Type 0 where
  sends :
      (w : Option Error) {s' : Session}
      → s.sending ≡ true
      → send_round w s ≡ some s'
      → Step s s' [] []
  reads :
      (p : Bytes) (w : Option Error) {s' : Session}
      → s.reading ≡ true
      → read_round (ok p) w s ≡ some s'
      → Step s s' [] (p ∷ [])
  ends :
      (e : Error) {s' : Session}
      → s.reading ≡ true
      → read_round (err e) none s ≡ some s'
      → Step s s' [] []
  returns : {s' : Session} → receive s ≡ some s' → Step s s' [] []
  -- the router's read loop sends a packet to a channel; other sessions begin and end
  offers :
      (h : ℕ) (p : Bytes) {r : TunRouter}
      → offer h p s.router ≡ runs r
      → Step s (record s { router = r }) (accepted h p (get_elem? s.router.channels h) s.inbound) []
  registers : (k : Bytes) → Step s (record s { router = register k s.router }) [] []
  unregisters : (k : Bytes) → Step s (record s { router = unregister k s.router }) [] []

-- The steps since the goroutines were started.
pub data Run (start : Session) : Session → List Bytes → List Bytes → Type 0 where
  here : Run start start [] []
  next :
      {s s' : Session} {xs ys us vs : List Bytes}
      → Run start s xs ys
      → Step s s' us vs
      → Run start s' (xs ++ us) (ys ++ vs)
