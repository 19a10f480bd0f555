-- ===== src/Tun/Bridge/Keeps.antt =====
-- internal/tun/router.go: what holds of a session's channel, whatever steps are taken, where each
-- change of the router keeps it.
use ghost_vpn.Base.{
  ℕ, ◌≡◌, refl, none, some, Option, List, [], ◌∷◌, Bytes, length, get_elem?, ltb, if_both, OnSome,
  OnSome-some, false,
}
use ghost_vpn.Io.{Error, Result, ok, err}
use ghost_vpn.Tun.Router.{Channel, TunRouter, register, unregister, offer, runs}
use ghost_vpn.Tun.Bridge.Session.{
  Session, Step, Run, send_round, put, errc_size, stream_wrote, send_from, send_on, set_channel,
  device_wrote, pass_on, read_round, reported, receive, receive_unless,
}
use ghost_vpn.Tun.Bridge.{from_stream}

-- A property of a channel that the router's changes keep.
pub record IsKept (P : ℕ → TunRouter → Type 0) : Type 0 where
  pub popped :
      (i : ℕ) (ch : Channel) (rest : List Bytes) (r : TunRouter)
      → get_elem? r.channels i ≡ some ch
      → P i r
      → P i (set_channel i (record ch { queue = rest }) r)
  pub registered : (k : Bytes) (r : TunRouter) (i : ℕ) → P i r → P i (register k r)
  pub unregistered : (k : Bytes) (r : TunRouter) (i : ℕ) → P i r → P i (unregister k r)
  pub offered :
      (h : ℕ) (p : Bytes) (r : TunRouter) (i : ℕ) {r' : TunRouter}
      → offer h p r ≡ runs r'
      → P i r
      → P i r'

module _ {P : ℕ → TunRouter → Type 0} (kept : IsKept P) where
  abbrev Keeps : Session → Type 0
  Keeps s = P s.inbound s.router

  put-Keeps : (e : Option Error) (s : Session) → Keeps s → OnSome Keeps (put e s)
  put-Keeps e s o = if_both (OnSome Keeps) (ltb (length s.errc) errc_size) o tt

  stream_wrote-Keeps :
      (p : Bytes) (w : Option Error) (s : Session) → Keeps s → OnSome Keeps (stream_wrote p w s)
  stream_wrote-Keeps p none s o = o
  stream_wrote-Keeps p (some e) s o = put-Keeps (some e) (record s { sending = false }) o

  send_from-Keeps :
      (w : Option Error) (ch : Channel) (queue : List Bytes) (s : Session)
      → get_elem? s.router.channels s.inbound ≡ some ch
      → Keeps s
      → OnSome Keeps (send_from w ch queue s)
  send_from-Keeps w ch [] s there o =
      if_both (OnSome Keeps) ch.closed (put-Keeps none (record s { sending = false }) o) tt
  send_from-Keeps w ch (p ∷ rest) s there o =
      stream_wrote-Keeps p w _ (kept.popped s.inbound ch rest s.router there o)

  send_on-Keeps :
      (w : Option Error) (ch : Option Channel) (s : Session)
      → get_elem? s.router.channels s.inbound ≡ ch
      → Keeps s
      → OnSome Keeps (send_on w s ch)
  send_on-Keeps w none s there o = tt
  send_on-Keeps w (some ch) s there o = send_from-Keeps w ch ch.queue s there o

  device_wrote-Keeps :
      (p : Bytes) (w : Option Error) (s : Session) → Keeps s → OnSome Keeps (device_wrote p w s)
  device_wrote-Keeps p none s o = o
  device_wrote-Keeps p (some e) s o = put-Keeps (some e) (record s { reading = false }) o

  pass_on-Keeps :
      (out : Option Bytes) (w : Option Error) (s : Session)
      → Keeps s
      → OnSome Keeps (pass_on out w s)
  pass_on-Keeps none w s o = o
  pass_on-Keeps (some p) w s o = device_wrote-Keeps p w s o

  read_round-Keeps :
      (got : Result Bytes) (w : Option Error) (s : Session)
      → Keeps s
      → OnSome Keeps (read_round got w s)
  unfolding read_round
  read_round-Keeps (err e) w s o = put-Keeps (reported e) (record s { reading = false }) o
  read_round-Keeps (ok p) w s o = pass_on-Keeps (from_stream p) w s o

  receive_unless-Keeps :
      (was : Option (Option Error)) (es : List (Option Error)) (s : Session)
      → s.errc ≡ es
      → Keeps s
      → OnSome Keeps (receive_unless was s)
  receive_unless-Keeps (some e) es s q o = tt
  receive_unless-Keeps none [] s q o = rw q tt
  receive_unless-Keeps none (e ∷ es) s q o = rw q (kept.unregistered s.key s.router s.inbound o)

  step-Keeps : {s s' : Session} {us vs : List Bytes} → Step s s' us vs → Keeps s → Keeps s'
  unfolding send_round receive
  step-Keeps {s} (Step.sends w live q) o =
      OnSome-some Keeps q (send_on-Keeps w (get_elem? s.router.channels s.inbound) s refl o)
  step-Keeps {s} (Step.reads p w live q) o = OnSome-some Keeps q (read_round-Keeps (ok p) w s o)
  step-Keeps {s} (Step.ends e live q) o = OnSome-some Keeps q (read_round-Keeps (err e) none s o)
  step-Keeps {s} (Step.returns q) o =
      OnSome-some Keeps q (receive_unless-Keeps s.returned s.errc s refl o)
  step-Keeps {s} (Step.offers h p q) o = kept.offered h p s.router s.inbound q o
  step-Keeps {s} (Step.registers k) o = kept.registered k s.router s.inbound o
  step-Keeps {s} (Step.unregisters k) o = kept.unregistered k s.router s.inbound o

  pub Run-Keeps :
      {start s : Session} {xs ys : List Bytes} → Keeps start → Run start s xs ys → Keeps s
  Run-Keeps o Run.here = o
  Run-Keeps o (Run.next run step) = step-Keeps step (Run-Keeps o run)
