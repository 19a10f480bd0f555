-- ===== src/Shaper/Coalesce/Transparent.antt =====
-- internal/shaper/coalesce.go between two ends of internal/mux: a run of the coalescer, and what
-- the peer's read loop makes of the bytes that it sent.
use ghost_vpn.Base.{
  ℕ, ◌+◌, ◌<◌, ◌≡◌, ◌≢◌, refl, sym, ap, ◌∙◌, none, some, List, [], ◌∷◌, ◌++◌, Bytes, length,
  append-nil, arith, if◌then◌else◌, inl, inr, Bool-cases, ◌==◌, false, Bool, true, if_both_of_two,
  Option,
}
use ghost_vpn.Io.{Error, Writer, WriterLaws}
use ghost_vpn.Mux.Frame.{Frame, IsWire, type_padding}
use ghost_vpn.Mux.Codec.{encode}
use ghost_vpn.Mux.Conn.{Conn, close, dispatch, read_loop}
use ghost_vpn.Mux.Conn.Loop.{
  encode_all, length-encode_all, dispatch_all, dispatch_padding, read_loop-encode_all,
}
use ghost_vpn.Shaper.Coalesce.{
  CoalesceConfig, CoalescingConn, new_coalescing_conn, write, timer_flush, cover_tick, timer_error,
  cover_error,
}
use ghost_vpn.Shaper.Coalesce.Carries.{Carries, strip, flush_locked-Carries, write-Carries}

module _ {W : Type 0} ⦃wr : Writer W⦄ where
  -- The calls of `Write`, with frames other than PADDING, of the timer and of the cover loop in any
  -- order, with the frames that were written. No `Write` returns an error, and neither do the flushes
  -- that the timer and the cover loop make, whose errors the code drops.
  pub data Run (w : W) (cfg : CoalesceConfig) : CoalescingConn W → List Frame → Type 0 where
    start : Run w cfg (new_coalescing_conn w cfg) []
    writes :
        {c : CoalescingConn W} {fs : List Frame} (intn : ℕ → ℕ) (f : Frame)
        → Run w cfg c fs
        → IsWire f
        → f.ftype ≢ type_padding
        → (write intn c (encode f)).2 ≡ none
        → Run w cfg (write intn c (encode f)).0 (fs ++ f ∷ [])
    timer :
        {c : CoalescingConn W} {fs : List Frame} (intn : ℕ → ℕ)
        → Run w cfg c fs
        → timer_error intn c ≡ none
        → Run w cfg (timer_flush intn c) fs
    tick :
        {c : CoalescingConn W} {fs : List Frame} (intn : ℕ → ℕ)
        → Run w cfg c fs
        → cover_error intn c ≡ none
        → Run w cfg (cover_tick intn c).0 fs

  Run-Carries :
      {sent : W → Bytes} (laws : WriterLaws wr sent) (w : W) (cfg : CoalesceConfig)
      {c : CoalescingConn W} {fs : List Frame}
      → sent w ≡ []
      → Run w cfg c fs
      → Carries sent c fs
  unfolding new_coalescing_conn timer_flush cover_tick
  Run-Carries laws w cfg e start = record {
    frames = [];
    wire = tt;
    stream = append-nil _ ∙ e;
    stripped = refl;
  }
  Run-Carries laws w cfg e (writes {c} {fs} intn f r v p q) =
      write-Carries laws intn c fs f (Run-Carries laws w cfg e r) v p q
  Run-Carries {sent} laws w cfg e (timer {c} {fs} intn r q) =
      let k = Run-Carries laws w cfg e r in
      let still : Carries sent (record c { timer = false }) fs = record {
        frames = k.frames;
        wire = k.wire;
        stream = k.stream;
        stripped = k.stripped;
      } in
      if_both_of_two (λ (x : CoalescingConn W) (e : Option Error). e ≡ none → Carries sent x fs)
        c.closed (λ _. still)
        (flush_locked-Carries laws intn false (record c { timer = false }) fs still) q
  Run-Carries {sent} laws w cfg e (tick {c} {fs} intn r q) =
      let k = Run-Carries laws w cfg e r in
      let Of : CoalescingConn W × Bool → Option Error → Type 0 =
        λ x e. e ≡ none → Carries sent x.0 fs in
      if_both_of_two Of c.closed (λ _. k)
        (if_both_of_two Of (length c.buf == 0) (flush_locked-Carries laws intn true c fs k)
          (λ _. k))
        q

module _ {V : Type 0} ⦃vr : Writer V⦄ where
  -- Frames handled at one time are handled as if the PADDING frames were not there.
  dispatch_all-strip :
      (now : ℕ) (n m : ℕ) (fs : List Frame) (c : Conn V)
      → dispatch_all (λ _. now) n fs c ≡ dispatch_all (λ _. now) m (strip fs) c
  dispatch_all-strip now n m [] c = refl
  dispatch_all-strip now n m (f ∷ fs) c = elim (Bool-cases (f.ftype == type_padding)) [
    | inl is ↦
        rw (is, if◌then◌else◌)
          (ap (dispatch_all (λ _. now) (n + 1) fs) (dispatch_padding now f c (ground arith))
            ∙ dispatch_all-strip now (n + 1) m fs c)
    | inr other ↦
        rw (other, if◌then◌else◌) (dispatch_all-strip now (n + 1) (m + 1) fs (dispatch now f c))
  ]

  -- Where frames other than PADDING are written and no write to the inner connection fails, in a
  -- `Write`, in the timer or in the cover loop, then whatever the coalescer batched, delayed or padded:
  -- once its buffer is empty, the read loop of a peer that gets all it sent, at one time, ends in the
  -- state in which it has handled exactly the frames that were written, in order, each once.
  pub peer_sees_written :
      {W : Type 0} ⦃wr : Writer W⦄ {sent : W → Bytes} (laws : WriterLaws wr sent) (w : W)
      (cfg : CoalesceConfig) (c : CoalescingConn W) (written : List Frame) (fuel now n : ℕ)
      (peer : Conn V) (e : Error)
      → sent w ≡ []
      → Run w cfg c written
      → c.buf ≡ []
      → length (sent c.inner) < fuel
      → read_loop fuel
          (λ _. now)
          n
          (record peer { dec = record { pending = sent c.inner; last = e } })
        ≡ close (record (dispatch_all (λ _. now) n written peer) {
          dec = record { pending = []; last = e };
          close_err = some e;
        })
  peer_sees_written {sent = sent} laws w cfg c written fuel now n peer e new run empty enough =
      let k = Run-Carries laws w cfg new run in
      let all : sent c.inner ≡ encode_all k.frames =
        sym (append-nil (sent c.inner)) ∙ ap (◌++◌ (sent c.inner)) (sym empty) ∙ k.stream in
      let same : dispatch_all (λ _. now) n k.frames peer ≡ dispatch_all (λ _. now) n written peer =
        dispatch_all-strip now n n k.frames peer
        ∙ ap (λ (x : List Frame). dispatch_all (λ _. now) n x peer) k.stripped in
      (λ i.
        read_loop fuel (λ _. now) n (record peer { dec = record { pending = all i; last = e } }))
      ∙ read_loop-encode_all k.frames fuel (λ _. now) n peer e k.wire
          (omega (arith, ap length all, length-encode_all k.frames))
      ∙ (λ i.
          close (record (same i) { dec = record { pending = []; last = e }; close_err = some e }))
