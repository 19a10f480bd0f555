-- ===== src/Tun/Bridge/Balance.antt =====
-- internal/tun/router.go: the capacity of `errc`, and what ends a bridge.
use ghost_vpn.Base.{
  ℕ, ◌+◌, ◌≡◌, ◌≢◌, refl, Bool, true, false, Option, none, some, List, [], ◌∷◌, Bytes, length,
  get_elem?, arith, length-append, OnSome-some, OnSome, inl, inr, if_both, ◌⊎◌, Bool-cases,
}
use ghost_vpn.Io.{Error, Result, ok, err}
use ghost_vpn.Tun.Router.{Channel, TunRouter}
use ghost_vpn.Tun.Bridge.{from_stream}
use ghost_vpn.Tun.Bridge.Session.{
  Session, put, device_wrote, pass_on, read_round, reported, stream_wrote, send_from, send_on,
  send_round, receive_from, receive_unless, receive, Step, Run, begin_session,
}

abbrev count_true : Bool → ℕ
count_true true = 1
count_true false = 0

abbrev count_some : Option (Option Error) → ℕ
count_some none = 0
count_some (some _) = 1

-- What is on `errc`, what was taken from it, and the goroutines that may still send on it.
abbrev pub shares : Session → ℕ
shares s = length s.errc + count_some s.returned + count_true s.sending + count_true s.reading

abbrev pub IsBalanced : Session → Type 0
IsBalanced s = shares s ≡ 2

put-IsBalanced : (e : Option Error) (s : Session) → shares s ≡ 1 → OnSome IsBalanced (put e s)
put-IsBalanced e s h = ground (arith, length-append s.errc (e ∷ []))

device_wrote-IsBalanced :
    (p : Bytes) (w : Option Error) (s : Session)
    → s.reading ≡ true
    → IsBalanced s
    → OnSome IsBalanced (device_wrote p w s)
device_wrote-IsBalanced p none s live b = b
device_wrote-IsBalanced p (some e) s live b =
    put-IsBalanced (some e) (record s { reading = false }) (ground (arith, live, b))

pass_on-IsBalanced :
    (out : Option Bytes) (w : Option Error) (s : Session)
    → s.reading ≡ true
    → IsBalanced s
    → OnSome IsBalanced (pass_on out w s)
pass_on-IsBalanced none w s live b = b
pass_on-IsBalanced (some p) w s live b = device_wrote-IsBalanced p w s live b

read_round-IsBalanced :
    (got : Result Bytes) (w : Option Error) (s : Session)
    → s.reading ≡ true
    → IsBalanced s
    → OnSome IsBalanced (read_round got w s)
unfolding read_round
read_round-IsBalanced (err e) w s live b =
    put-IsBalanced (reported e) (record s { reading = false }) (ground (arith, live, b))
read_round-IsBalanced (ok p) w s live b = pass_on-IsBalanced (from_stream p) w s live b

stream_wrote-IsBalanced :
    (p : Bytes) (w : Option Error) (s : Session)
    → s.sending ≡ true
    → IsBalanced s
    → OnSome IsBalanced (stream_wrote p w s)
stream_wrote-IsBalanced p none s live b = b
stream_wrote-IsBalanced p (some e) s live b =
    put-IsBalanced (some e) (record s { sending = false }) (ground (arith, live, b))

send_from-IsBalanced :
    (w : Option Error) (ch : Channel) (queue : List Bytes) (s : Session)
    → s.sending ≡ true
    → IsBalanced s
    → OnSome IsBalanced (send_from w ch queue s)
send_from-IsBalanced w ch [] s live b =
    if_both (OnSome IsBalanced) ch.closed
      (put-IsBalanced none (record s { sending = false }) (ground (arith, live, b))) tt
send_from-IsBalanced w ch (p ∷ rest) s live b = stream_wrote-IsBalanced p w _ live b

send_on-IsBalanced :
    (w : Option Error) (ch : Option Channel) (s : Session)
    → s.sending ≡ true
    → IsBalanced s
    → OnSome IsBalanced (send_on w s ch)
send_on-IsBalanced w none s live b = tt
send_on-IsBalanced w (some ch) s live b = send_from-IsBalanced w ch ch.queue s live b

receive_from-IsBalanced :
    (es : List (Option Error)) (s : Session)
    → s.errc ≡ es
    → s.returned ≡ none
    → IsBalanced s
    → OnSome IsBalanced (receive_from es s)
receive_from-IsBalanced [] s is not_yet b = tt
receive_from-IsBalanced (e ∷ rest) s is not_yet b = ground (arith, is, not_yet, b)

receive-IsBalanced :
    (was : Option (Option Error)) (s : Session)
    → s.returned ≡ was
    → IsBalanced s
    → OnSome IsBalanced (receive_unless was s)
receive-IsBalanced none s not_yet b = receive_from-IsBalanced s.errc s refl not_yet b
receive-IsBalanced (some e) s was b = tt

step-IsBalanced :
    {s s' : Session} {us vs : List Bytes} → Step s s' us vs → IsBalanced s → IsBalanced s'
unfolding send_round receive
step-IsBalanced {s} (Step.sends w live q) b =
    OnSome-some IsBalanced q (send_on-IsBalanced w (get_elem? s.router.channels s.inbound) s live b)
step-IsBalanced {s} (Step.reads p w live q) b =
    OnSome-some IsBalanced q (read_round-IsBalanced (ok p) w s live b)
step-IsBalanced {s} (Step.ends e live q) b =
    OnSome-some IsBalanced q (read_round-IsBalanced (err e) none s live b)
step-IsBalanced {s} (Step.returns q) b =
    OnSome-some IsBalanced q (receive-IsBalanced s.returned s refl b)
step-IsBalanced (Step.offers h p q) b = b
step-IsBalanced (Step.registers k) b = b
step-IsBalanced (Step.unregisters k) b = b

pub Run-IsBalanced :
    {start s : Session} {xs ys : List Bytes} → IsBalanced start → Run start s xs ys → IsBalanced s
Run-IsBalanced b Run.here = b
Run-IsBalanced b (Run.next r step) = step-IsBalanced step (Run-IsBalanced b r)

begin_session-IsBalanced :
    (key : Bytes) (out : Option Bytes) (w : Option Error) (r : TunRouter)
    → IsBalanced (begin_session key out w r)
begin_session-IsBalanced key out w r = refl

put_fits : (e : Option Error) (s : Session) → shares s ≡ 1 → put e s ≢ none
put_fits e s h = ground arith

stream_wrote_fits :
    (p : Bytes) (w : Option Error) (s : Session)
    → s.sending ≡ true
    → IsBalanced s
    → stream_wrote p w s ≢ none
stream_wrote_fits p none s live b = ground arith
stream_wrote_fits p (some e) s live b =
    put_fits (some e) (record s { sending = false }) (ground (arith, live, b))

send_from_fits :
    (w : Option Error) (ch : Channel) (queue : List Bytes) (s : Session)
    → s.sending ≡ true
    → IsBalanced s
    → (send_from w ch queue s ≢ none) ⊎ ((queue ≡ []) × (ch.closed ≡ false))
send_from_fits w ch [] s live b = elim (Bool-cases ch.closed) [
  | inl shut ↦
      inl (rw shut (put_fits none (record s { sending = false }) (ground (arith, live, b))))
  | inr lasts ↦ inr (refl, lasts)
]
send_from_fits w ch (p ∷ rest) s live b = inl (stream_wrote_fits p w _ live b)

-- However the goroutines of a bridge, its call, the router's read loop and other sessions take turns:
-- the goroutine that writes to the stream, while it runs, can go on unless its channel is open and
-- empty. It never waits for room on `errc`.
pub send_round_fits :
    (key : Bytes) (out : Option Bytes) (e : Option Error) (r : TunRouter) {s : Session}
    {xs ys : List Bytes} (w : Option Error) (ch : Channel)
    → Run (begin_session key out e r) s xs ys
    → s.sending ≡ true
    → get_elem? s.router.channels s.inbound ≡ some ch
    → (send_round w s ≢ none) ⊎ ((ch.queue ≡ []) × (ch.closed ≡ false))
unfolding send_round
send_round_fits key out e r {s} w ch run live there = rw there (
    send_from_fits w ch ch.queue s live (Run-IsBalanced (begin_session-IsBalanced key out e r) run))
