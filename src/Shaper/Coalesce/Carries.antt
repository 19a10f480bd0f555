-- ===== src/Shaper/Coalesce/Carries.antt =====
-- internal/shaper/coalesce.go over internal/mux: what the coalescer sends are the frames that were
-- written, in order, with PADDING frames between them.
use ghost_vpn.Base.{
  ℕ, zero, suc, ◌+◌, ◌-◌, ◌≤◌, ◌≡◌, ◌≢◌, refl, sym, ap, ◌∙◌, subst, Bool, false, not, ◌&&◌, Option,
  none, some, List, [], ◌∷◌, ◌++◌, Bytes, All, AreBytes, length, replicate, ltb, leb, ◌==◌,
  if◌then◌else◌, if_both, arith, append_assoc, append-nil, All-append, length-replicate,
}
use ghost_vpn.Io.{Error, Writer, WriterLaws}
use ghost_vpn.Mux.Frame.{Frame, IsWire, type_padding, header_size, max_payload}
use ghost_vpn.Mux.Codec.{encode}
use ghost_vpn.Mux.Conn.Loop.{encode_all}
use ghost_vpn.Shaper.Coalesce.{
  CoalescingConn, target_size, padding_frame, flush_locked, flush_to, send, cap_payload, write,
  after_flush,
}
use ghost_vpn.Shaper.Coalesce.Flush.{padding, padding_frame-encode}

-- The frames that are not PADDING.
abbrev pub strip : List Frame → List Frame
strip [] = []
strip (f ∷ fs) = if f.ftype == type_padding then strip fs else f ∷ strip fs

strip-append : (fs gs : List Frame) → strip (fs ++ gs) ≡ strip fs ++ strip gs
strip-append [] gs = refl
strip-append (f ∷ fs) gs = ground (arith, strip-append fs gs)

encode_all-append : (fs gs : List Frame) → encode_all (fs ++ gs) ≡ encode_all fs ++ encode_all gs
encode_all-append [] gs = refl
encode_all-append (f ∷ fs) gs = simp (encode_all-append fs gs, append_assoc)

-- What was sent to the inner connection and what is still buffered are the encodings of frames
-- that are, PADDING aside, the ones that were written.
pub record Carries {W : Type 0} (sent : W → Bytes) (c : CoalescingConn W) (written : List Frame)
    : Type 0 where
  pub frames : List Frame
  pub wire : All IsWire frames
  pub stream : sent c.inner ++ c.buf ≡ encode_all frames
  pub stripped : strip frames ≡ written

AreBytes-zeros : (n : ℕ) → AreBytes (replicate n 0)
AreBytes-zeros zero = tt
AreBytes-zeros (suc n) = (omega arith, AreBytes-zeros n)

padding-IsWire : (n : ℕ) → n ≤ max_payload → IsWire (padding n)
padding-IsWire n h = record {
  version_is = refl;
  type_byte = omega arith;
  id_word = omega arith;
  payload_fits = omega (arith, length-replicate {A = ℕ} n 0);
  payload_bytes = AreBytes-zeros n;
}

-- One more frame at the end of the stream.
extend :
    {W : Type 0} (sent : W → Bytes) (c : CoalescingConn W) (written : List Frame) (f : Frame)
    → IsWire f
    → Carries sent c written
    → Carries sent (record c { buf = c.buf ++ encode f }) (written ++ strip (f ∷ []))
extend sent c written f w k = record {
  frames = k.frames ++ f ∷ [];
  wire = All-append IsWire k.frames (f ∷ []) k.wire (w, tt);
  stream =
      sym (append_assoc (sent c.inner) c.buf (encode f))
      ∙ ap (λ (x : Bytes). x ++ encode f) k.stream
      ∙ ap (◌++◌ (encode_all k.frames)) (sym (append-nil (encode f)))
      ∙ sym (encode_all-append k.frames (f ∷ []));
  stripped =
      strip-append k.frames (f ∷ []) ∙ ap (λ (x : List Frame). x ++ strip (f ∷ [])) k.stripped;
}

module _ {W : Type 0} ⦃wr : Writer W⦄ {sent : W → Bytes} (laws : WriterLaws wr sent) where
  send-Carries :
      (c : CoalescingConn W) (written : List Frame) (n : ℕ)
      → Carries sent c written
      → (send c.buf n c).1 ≡ none
      → Carries sent (send c.buf n c).0 written
  unfolding send
  send-Carries c written n k ok = record {
    frames = k.frames;
    wire = k.wire;
    stream =
        append-nil (sent (wr.write c.inner c.buf).0)
        ∙ (laws.writes_all c.inner c.buf ok).0
        ∙ k.stream;
    stripped = k.stripped;
  }

  -- Of a step that reports no error.
  abbrev Goes : List Frame → CoalescingConn W × Option Error → Type 0
  Goes written r = r.1 ≡ none → Carries sent r.0 written

  cap_payload-le : (n : ℕ) → cap_payload n ≤ max_payload
  cap_payload-le n = ground arith

  padded-Carries :
      (c : CoalescingConn W) (written : List Frame) (n : ℕ)
      → n ≤ max_payload
      → Carries sent c written
      → Carries sent (record c { buf = c.buf ++ padding_frame n }) written
  padded-Carries c written n h k = rw padding_frame-encode (
      subst (Carries sent (record c { buf = c.buf ++ encode (padding n) })) (append-nil written)
        (extend sent c written (padding n) (padding-IsWire n h) k))

  flush_to-Goes :
      (target : ℕ) (c : CoalescingConn W) (written : List Frame)
      → Carries sent c written
      → Goes written (flush_to target c)
  unfolding flush_to send
  flush_to-Goes target c written k =
      let n = cap_payload (target - length c.buf - header_size) in
      let plain = send-Carries c written 0 k in
      if_both (Goes written) (leb target (length c.buf)) plain (
        if_both (Goes written) (ltb target (length c.buf + header_size + 1)) plain (
          send-Carries (record c { buf = c.buf ++ padding_frame n }) written n
            (padded-Carries c written n (cap_payload-le (target - length c.buf - header_size)) k)))

  -- A flush adds at most PADDING to the frames.
  pub flush_locked-Carries :
      (intn : ℕ → ℕ) (pure_cover : Bool) (c : CoalescingConn W) (written : List Frame)
      → Carries sent c written
      → (flush_locked intn pure_cover c).1 ≡ none
      → Carries sent (flush_locked intn pure_cover c).0 written
  unfolding flush_locked
  flush_locked-Carries intn pure_cover c written k =
      let still : Carries sent (record c { timer = false }) written = record {
        frames = k.frames;
        wire = k.wire;
        stream = k.stream;
        stripped = k.stripped;
      } in
      if_both (Goes written) ((length c.buf == 0) && not pure_cover) (λ _. still)
        (flush_to-Goes (target_size c.cfg intn) (record c { timer = false }) written still)

  after_flush-Carries :
      (n : ℕ) (r : CoalescingConn W × Option Error) (written : List Frame)
      → Goes written r
      → (after_flush n r).2 ≡ none
      → Carries sent (after_flush n r).0 written
  unfolding after_flush
  after_flush-Carries n (c, none) written g ok = g refl
  after_flush-Carries n (c, some e) written g ok = absurd (ground arith)

  strip_one : (f : Frame) → f.ftype ≢ type_padding → strip (f ∷ []) ≡ f ∷ []
  strip_one f h = ground arith

  -- A frame that is written joins the stream, in whatever batch it will be sent.
  pub write-Carries :
      (intn : ℕ → ℕ) (c : CoalescingConn W) (written : List Frame) (f : Frame)
      → Carries sent c written
      → IsWire f
      → f.ftype ≢ type_padding
      → (write intn c (encode f)).2 ≡ none
      → Carries sent (write intn c (encode f)).0 (written ++ f ∷ [])
  unfolding write after_flush
  write-Carries intn c written f k w h =
      let c' = record c { buf = c.buf ++ encode f } in
      let joined : Carries sent c' (written ++ f ∷ []) =
        subst (λ (x : List Frame). Carries sent c' (written ++ x)) (strip_one f h)
          (extend sent c written f w k) in
      if_both
        (λ (r : CoalescingConn W × ℕ × Option Error).
          r.2 ≡ none → Carries sent r.0 (written ++ f ∷ []))
        c.closed (λ ok. absurd (ground arith))
        (if_both
          (λ (r : CoalescingConn W × ℕ × Option Error).
            r.2 ≡ none → Carries sent r.0 (written ++ f ∷ []))
          (leb c.cfg.flush_bytes (length c'.buf))
          (after_flush-Carries (length (encode f)) (flush_locked intn false c') (written ++ f ∷ [])
            (flush_locked-Carries intn false c' (written ++ f ∷ []) joined))
          (λ ok. record {
            frames = joined.frames;
            wire = joined.wire;
            stream = joined.stream;
            stripped = joined.stripped;
          }))
