-- ===== src/Tun/Bridge/Order.antt =====
-- internal/tun/router.go: what becomes of the packets of a session, in both directions.
use ghost_vpn.Base.{
  one_if, ◌+◌, ◌≤◌, ◌≡◌, refl, Bool, true, false, Option, none, some, List, [], ◌∷◌, ◌++◌, Bytes,
  length, get_elem?, ltb, arith, Option-cases, inl, inr, append-nil, if_both, subst, OnSome, ap,
  sym, append_assoc, ◌∙◌, OnSome-some, get_elem?-append_end,
}
use ghost_vpn.Io.{Error, err}
use ghost_vpn.Tun.Router.{Channel, TunRouter, register}
use ghost_vpn.Tun.Bridge.{from_stream}
use ghost_vpn.Tun.Bridge.Session.{
  Session, first_written, begin_session, here, next, Session, stream_wrote, put, send_from,
  errc_size, read_round, pass_on, send_on, device_wrote, reported, send_round, receive_unless,
  receive, Step, begin_session, Run,
}
use ghost_vpn.Tun.Bridge.Queues.{queue_of}
use ghost_vpn.Tun.Bridge.Sent.{IsSent, step-IsSent, nothing_lost}

-- The packets that are to be written to the device.
abbrev add_packet : Option Bytes → List Bytes → List Bytes
add_packet none ps = ps
add_packet (some p) ps = p ∷ ps

abbrev pub to_write : List Bytes → List Bytes
to_write [] = []
to_write (p ∷ ps) = add_packet (from_stream p) (to_write ps)

to_write-append : (xs ys : List Bytes) → to_write (xs ++ ys) ≡ to_write xs ++ to_write ys
to_write-append [] ys = refl
to_write-append (x ∷ xs) ys = elim (Option-cases (from_stream x)) [
  | inl skipped ↦ rw skipped (to_write-append xs ys)
  | inr (p, passed) ↦ rw passed (ap (◌∷◌ p) (to_write-append xs ys))
]

-- Of the packets from the stream that are to be written to the device: those written, and the one
-- whose Write failed, if the goroutine has ended.
pub record Written (reading : Bool) (to_device : List Bytes) (due : List Bytes) : Type 0 where
  pub lost : List Bytes
  pub all : to_device ++ lost ≡ due
  pub bound : length lost + one_if reading ≤ 1

abbrev pub IsWritten : List Bytes → Session → Type 0
IsWritten due s = Written s.reading s.to_device due

put-IsWritten :
    (due : List Bytes) (e : Option Error) (s : Session)
    → IsWritten due s
    → OnSome (IsWritten due) (put e s)
put-IsWritten due e s o = if_both (OnSome (IsWritten due)) (ltb (length s.errc) errc_size) o tt

module _ (due : List Bytes) where
  -- While the goroutine runs, all of them are written.
  written_all : (s : Session) → s.reading ≡ true → IsWritten due s → s.to_device ≡ due
  written_all s live o =
      sym (append-nil s.to_device)
      ∙ ap (◌++◌ s.to_device) (sym (nothing_lost o.lost s.reading o.bound live))
      ∙ o.all

  device_wrote-IsWritten :
      (p : Bytes) (w : Option Error) (s : Session)
      → s.reading ≡ true
      → IsWritten due s
      → OnSome (IsWritten (due ++ p ∷ [])) (device_wrote p w s)
  device_wrote-IsWritten p none s live o = record {
    lost = [];
    all = append-nil (s.to_device ++ p ∷ []) ∙ ap (λ zs. zs ++ p ∷ []) (written_all s live o);
    bound = ground arith;
  }
  device_wrote-IsWritten p (some e) s live o = put-IsWritten (due ++ p ∷ []) (some e) _ (record {
    lost = p ∷ [];
    all = ap (λ zs. zs ++ p ∷ []) (written_all s live o);
    bound = omega arith;
  })

  pass_on-IsWritten :
      (out : Option Bytes) (w : Option Error) (s : Session)
      → s.reading ≡ true
      → IsWritten due s
      → OnSome (IsWritten (due ++ add_packet out [])) (pass_on out w s)
  pass_on-IsWritten none w s live o = rw append-nil o
  pass_on-IsWritten (some p) w s live o = device_wrote-IsWritten p w s live o

  stops-IsWritten :
      (e : Error) (s : Session)
      → IsWritten due s
      → OnSome (IsWritten due) (read_round (err e) none s)
  unfolding read_round
  stops-IsWritten e s o =
      put-IsWritten due (reported e) _
        (record { lost = o.lost; all = o.all; bound = let b = o.bound in ground arith })

  stream_wrote-IsWritten :
      (p : Bytes) (w : Option Error) (s : Session)
      → IsWritten due s
      → OnSome (IsWritten due) (stream_wrote p w s)
  stream_wrote-IsWritten p none s o = o
  stream_wrote-IsWritten p (some e) s o = put-IsWritten due (some e) _ o

  send_from-IsWritten :
      (w : Option Error) (ch : Channel) (queue : List Bytes) (s : Session)
      → IsWritten due s
      → OnSome (IsWritten due) (send_from w ch queue s)
  send_from-IsWritten w ch [] s o =
      if_both (OnSome (IsWritten due)) ch.closed (put-IsWritten due none _ o) tt
  send_from-IsWritten w ch (p ∷ rest) s o = stream_wrote-IsWritten p w _ o

  send_on-IsWritten :
      (w : Option Error) (ch : Option Channel) (s : Session)
      → IsWritten due s
      → OnSome (IsWritten due) (send_on w s ch)
  send_on-IsWritten w none s o = tt
  send_on-IsWritten w (some ch) s o = send_from-IsWritten w ch ch.queue s o

  receive_unless-IsWritten :
      (was : Option (Option Error)) (es : List (Option Error)) (s : Session)
      → s.errc ≡ es
      → IsWritten due s
      → OnSome (IsWritten due) (receive_unless was s)
  receive_unless-IsWritten (some e) es s q o = tt
  receive_unless-IsWritten none [] s q o = rw q tt
  receive_unless-IsWritten none (e ∷ es) s q o = rw q o

pub step-IsWritten :
    (first ys : List Bytes) {s s' : Session} {us vs : List Bytes}
    → Step s s' us vs
    → IsWritten (first ++ to_write ys) s
    → IsWritten (first ++ to_write (ys ++ vs)) s'
unfolding send_round receive read_round
step-IsWritten first ys {s} (Step.sends w live q) o = rw append-nil (
    OnSome-some (IsWritten (first ++ to_write ys)) q
      (send_on-IsWritten _ w (get_elem? s.router.channels s.inbound) s o))
step-IsWritten first ys {s} {s'} (Step.reads p w live q) o =
    subst (λ due. IsWritten due s')
      (append_assoc first (to_write ys) (add_packet (from_stream p) [])
        ∙ ap (◌++◌ first) (sym (to_write-append ys (p ∷ []))))
      (OnSome-some (IsWritten ((first ++ to_write ys) ++ add_packet (from_stream p) [])) q
        (pass_on-IsWritten (first ++ to_write ys) (from_stream p) w s live o))
step-IsWritten first ys {s} (Step.ends e live q) o =
    rw append-nil (OnSome-some (IsWritten (first ++ to_write ys)) q (stops-IsWritten _ e s o))
step-IsWritten first ys {s} (Step.returns q) o = rw append-nil (
    OnSome-some (IsWritten (first ++ to_write ys)) q
      (receive_unless-IsWritten _ s.returned s.errc s refl o))
step-IsWritten first ys (Step.offers h p q) o = rw append-nil o
step-IsWritten first ys (Step.registers k) o = rw append-nil o
step-IsWritten first ys (Step.unregisters k) o = rw append-nil o

begin_session-IsSent :
    (key : Bytes) (out : Option Bytes) (w : Option Error) (r : TunRouter)
    → IsSent [] (begin_session key out w r)
unfolding register
begin_session-IsSent key out w r = record {
  queue = [];
  lost = [];
  queued = ap queue_of (get_elem?-append_end r.channels (record { queue = []; closed = false }));
  all = refl;
  bound = omega arith;
}

begin_session-IsWritten :
    (key : Bytes) (out : Option Bytes) (w : Option Error) (r : TunRouter)
    → IsWritten (first_written out w ++ []) (begin_session key out w r)
begin_session-IsWritten key out w r = record { lost = []; all = refl; bound = omega arith }

-- However the two goroutines of a bridge, its call, the router's read loop and other sessions take
-- turns: the packets that the session's channel accepted are, in order, those written to the stream,
-- at most one whose Write failed, and those in the queue; and the packets of the stream that are IP
-- packets are, after the first, in order those written to the device and at most one that it refused.
-- No packet is lost in a direction while its goroutine runs.
pub Run-Delivers :
    (key : Bytes) (out : Option Bytes) (w : Option Error) (r : TunRouter) {s : Session}
    {xs ys : List Bytes}
    → Run (begin_session key out w r) s xs ys
    → IsSent xs s × IsWritten (first_written out w ++ to_write ys) s
Run-Delivers key out w r here =
    (begin_session-IsSent key out w r, begin_session-IsWritten key out w r)
Run-Delivers key out w r (next {ys = ys} run step) =
    let (sent, written) = Run-Delivers key out w r run in
    (step-IsSent step sent, step-IsWritten (first_written out w) ys step written)
