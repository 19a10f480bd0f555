-- ===== src/Tun/Bridge/Sent.antt =====
-- internal/tun/router.go: what becomes of the packets from the device to a session.
use ghost_vpn.Base.{
  one_if, ℕ, ◌+◌, ◌≤◌, ◌≡◌, refl, Bool, true, Option, none, some, List, [], ◌∷◌, ◌++◌, Bytes,
  length, get_elem?, ltb, arith, lt-length_of_get_elem?, get_elem?-set_self, append-nil, if_both,
  OnSome, ap, sym, append_assoc, ◌∙◌, OnSome-some,
}
use ghost_vpn.Io.{Error, Result, ok, err}
use ghost_vpn.Tun.Router.{Channel, TunRouter}
use ghost_vpn.Tun.Bridge.{from_stream}
use ghost_vpn.Tun.Bridge.Session.{
  Session, Session, stream_wrote, put, send_from, errc_size, read_round, pass_on, send_on,
  device_wrote, reported, send_round, receive_from, receive_unless, receive, Step,
}
use ghost_vpn.Tun.Bridge.Queues.{queue_of, queue_at, register-queue, unregister-queue, offer-queue}

-- Of the packets that the channel accepted: those written to the stream, the one whose Write failed,
-- if the goroutine has ended, and those in the queue.
pub record Sent (sending : Bool) (i : ℕ) (r : TunRouter) (sent : List Bytes) (xs : List Bytes)
    : Type 0 where
  pub queue : List Bytes
  pub lost : List Bytes
  pub queued : queue_at i r ≡ some queue
  pub all : sent ++ (lost ++ queue) ≡ xs
  pub bound : length lost + one_if sending ≤ 1

abbrev pub IsSent : List Bytes → Session → Type 0
IsSent xs s = Sent s.sending s.inbound s.router s.sent xs

pub nothing_lost :
    (lost : List Bytes) (b : Bool) → length lost + one_if b ≤ 1 → b ≡ true → lost ≡ []
nothing_lost [] b h live = refl
nothing_lost (p ∷ lost) b h live = absurd (ground (arith, live))

pub some_injective : {x y : List Bytes} → some x ≡ some y → x ≡ y
some_injective h = cc

module _ (xs : List Bytes) where
  put-IsSent : (e : Option Error) (s : Session) → IsSent xs s → OnSome (IsSent xs) (put e s)
  put-IsSent e s o = if_both (OnSome (IsSent xs)) (ltb (length s.errc) errc_size) o tt

  -- While the goroutine runs, no packet is lost.
  sent_all :
      (s : Session) (queue : List Bytes)
      → IsSent xs s
      → s.sending ≡ true
      → queue_at s.inbound s.router ≡ some queue
      → s.sent ++ queue ≡ xs
  sent_all s queue o live q =
      let none_lost : o.lost ≡ [] = nothing_lost o.lost s.sending o.bound live in
      let same : queue ≡ o.queue = some_injective (sym q ∙ o.queued) in
      ap (◌++◌ s.sent) same ∙ ap (λ zs. s.sent ++ (zs ++ o.queue)) (sym none_lost) ∙ o.all

  -- A packet is taken out of the channel, and its Write returns.
  stream_wrote-IsSent :
      (p : Bytes) (w : Option Error) (s : Session) (rest : List Bytes)
      → queue_at s.inbound s.router ≡ some rest
      → s.sent ++ p ∷ rest ≡ xs
      → OnSome (IsSent xs) (stream_wrote p w s)
  stream_wrote-IsSent p none s rest q all = record {
    queue = rest;
    lost = [];
    queued = q;
    all = append_assoc s.sent (p ∷ []) rest ∙ all;
    bound = ground arith;
  }
  stream_wrote-IsSent p (some e) s rest q all =
      put-IsSent (some e) _
        (record { queue = rest; lost = p ∷ []; queued = q; all = all; bound = omega arith })

  send_from-IsSent :
      (w : Option Error) (ch : Channel) (queue : List Bytes) (s : Session)
      → get_elem? s.router.channels s.inbound ≡ some ch
      → ch.queue ≡ queue
      → s.sending ≡ true
      → IsSent xs s
      → OnSome (IsSent xs) (send_from w ch queue s)
  send_from-IsSent w ch [] s there holds live o =
      if_both (OnSome (IsSent xs)) ch.closed
        (put-IsSent none _ (record {
          queue = o.queue;
          lost = o.lost;
          queued = o.queued;
          all = o.all;
          bound = let b = o.bound in ground arith;
        }))
        tt
  send_from-IsSent w ch (p ∷ rest) s there holds live o =
      stream_wrote-IsSent p w _ rest
        (ap queue_of (
          get_elem?-set_self s.router.channels s.inbound _
            (lt-length_of_get_elem? s.router.channels s.inbound there)))
        (sent_all s (p ∷ rest) o live (ap queue_of there ∙ ap some holds))

  send_on-IsSent :
      (w : Option Error) (ch : Option Channel) (s : Session)
      → get_elem? s.router.channels s.inbound ≡ ch
      → s.sending ≡ true
      → IsSent xs s
      → OnSome (IsSent xs) (send_on w s ch)
  send_on-IsSent w none s there live o = tt
  send_on-IsSent w (some ch) s there live o = send_from-IsSent w ch ch.queue s there refl live o

  device_wrote-IsSent :
      (p : Bytes) (w : Option Error) (s : Session)
      → IsSent xs s
      → OnSome (IsSent xs) (device_wrote p w s)
  device_wrote-IsSent p none s o = o
  device_wrote-IsSent p (some e) s o = put-IsSent (some e) _ o

  pass_on-IsSent :
      (out : Option Bytes) (w : Option Error) (s : Session)
      → IsSent xs s
      → OnSome (IsSent xs) (pass_on out w s)
  pass_on-IsSent none w s o = o
  pass_on-IsSent (some p) w s o = device_wrote-IsSent p w s o

  read_round-IsSent :
      (got : Result Bytes) (w : Option Error) (s : Session)
      → IsSent xs s
      → OnSome (IsSent xs) (read_round got w s)
  unfolding read_round
  read_round-IsSent (err e) w s o = put-IsSent (reported e) _ o
  read_round-IsSent (ok p) w s o = pass_on-IsSent (from_stream p) w s o

  receive_from-IsSent :
      (es : List (Option Error)) (s : Session)
      → IsSent xs s
      → OnSome (IsSent xs) (receive_from es s)
  receive_from-IsSent [] s o = tt
  receive_from-IsSent (e ∷ es) s o = record {
    queue = o.queue;
    lost = o.lost;
    queued = unregister-queue s.key s.router s.inbound ∙ o.queued;
    all = o.all;
    bound = o.bound;
  }

  receive_unless-IsSent :
      (was : Option (Option Error)) (s : Session)
      → IsSent xs s
      → OnSome (IsSent xs) (receive_unless was s)
  receive_unless-IsSent none s o = receive_from-IsSent s.errc s o
  receive_unless-IsSent (some e) s o = tt

-- A change of the router alone.
router-IsSent :
    {xs : List Bytes} (s : Session) (r : TunRouter) (more : List Bytes) (o : IsSent xs s)
    → queue_at s.inbound r ≡ some (o.queue ++ more)
    → IsSent (xs ++ more) (record s { router = r })
router-IsSent s r more o q = record {
  queue = o.queue ++ more;
  lost = o.lost;
  queued = q;
  all =
      ap (◌++◌ s.sent) (sym (append_assoc o.lost o.queue more))
      ∙ sym (append_assoc s.sent (o.lost ++ o.queue) more)
      ∙ ap (λ zs. zs ++ more) o.all;
  bound = o.bound;
}

pub step-IsSent :
    {s s' : Session} {xs us vs : List Bytes} → Step s s' us vs → IsSent xs s → IsSent (xs ++ us) s'
unfolding send_round receive
step-IsSent {s} {xs = xs} (Step.sends w live q) o = rw append-nil (
    OnSome-some (IsSent xs) q
      (send_on-IsSent xs w (get_elem? s.router.channels s.inbound) s refl live o))
step-IsSent {s} {xs = xs} (Step.reads p w live q) o =
    rw append-nil (OnSome-some (IsSent xs) q (read_round-IsSent xs (ok p) w s o))
step-IsSent {s} {xs = xs} (Step.ends e live q) o =
    rw append-nil (OnSome-some (IsSent xs) q (read_round-IsSent xs (err e) none s o))
step-IsSent {s} {xs = xs} (Step.returns q) o =
    rw append-nil (OnSome-some (IsSent xs) q (receive_unless-IsSent xs s.returned s o))
step-IsSent {s} (Step.offers h p q) o =
    router-IsSent s _ _ o (offer-queue h p s.router s.inbound o.queue q o.queued)
step-IsSent {s} (Step.registers k) o =
    router-IsSent s _ [] o
      (register-queue k s.router s.inbound o.queued ∙ ap some (sym (append-nil o.queue)))
step-IsSent {s} (Step.unregisters k) o =
    router-IsSent s _ [] o
      (unregister-queue k s.router s.inbound ∙ o.queued ∙ ap some (sym (append-nil o.queue)))
