-- ===== src/Mux/Conn/Loop.antt =====
-- internal/mux/conn.go: `readLoop` handles exactly the frames on the wire, in order, and ends.
use ghost_vpn.Base.{
  ℕ, zero, suc, ◌+◌, ◌≤◌, ◌<◌, ◌≡◌, refl, sym, ap, ◌∙◌, true, some, List, [], ◌∷◌, ◌++◌, Bytes, All,
  length, arith, subst, length-append,
}
use ghost_vpn.Io.{Error, Result, ok, err, Reader, Writer}
use ghost_vpn.Mux.Frame.{Frame, IsWire, type_padding}
use ghost_vpn.Mux.Codec.{encode, read_frame}
use ghost_vpn.Mux.Codec.RoundTrip.{read_frame-encode, read_frame_shrinks, read_frame-nil}
use ghost_vpn.Mux.Conn.{
  Conn, close, dispatch, dispatch_data, dispatch_open, dispatch_close, dispatch_ping, read_loop,
}

-- What a peer that sends these frames puts on the wire.
abbrev pub encode_all : List Frame → Bytes
encode_all [] = []
encode_all (f ∷ fs) = encode f ++ encode_all fs

pub length-encode_all : (fs : List Frame) → length fs ≤ length (encode_all fs)
unfolding encode
length-encode_all [] = omega arith
length-encode_all (f ∷ fs) =
    omega (arith, length-append (encode f) (encode_all fs), length-encode_all fs)

module _ {W : Type 0} ⦃wr : Writer W⦄ where
  -- Handling the frames one after the other, the first of them as frame `n`.
  abbrev pub dispatch_all : (ℕ → ℕ) → ℕ → List Frame → Conn W → Conn W
  dispatch_all clock n [] c = c
  dispatch_all clock n (f ∷ fs) c = dispatch_all clock (n + 1) fs (dispatch (clock n) f c)

  pub dispatch_padding :
      (now : ℕ) (f : Frame) (c : Conn W) → f.ftype ≡ type_padding → dispatch now f c ≡ c
  unfolding dispatch dispatch_data dispatch_open dispatch_close dispatch_ping
  dispatch_padding now f c h = ground arith

  -- A handler does not look at the reader.
  dispatch_dec :
      (now : ℕ) (f : Frame) (c : Conn W) (r : Reader)
      → dispatch now f (record c { dec = r }) ≡ record (dispatch now f c) { dec = r }
  unfolding dispatch dispatch_data dispatch_open dispatch_close dispatch_ping
  dispatch_dec now f c r = ground arith

  read_loop_step :
      (fuel : ℕ) (clock : ℕ → ℕ) (n : ℕ) (c : Conn W) (got : Reader × Result Frame)
      → read_frame c.dec ≡ got
      → read_loop (suc fuel) clock n c ≡ elim got.1 [
        | err e ↦ close (record c { dec = got.0; close_err = some e })
        | ok f ↦ read_loop fuel clock (n + 1) (dispatch (clock n) f (record c { dec = got.0 }))
      ]
  unfolding read_loop
  read_loop_step fuel clock n c got q =
      ap
        (λ (x : Reader × Result Frame).
          let y : Conn W = elim x.1 [
            | err e ↦ close (record c { dec = x.0; close_err = some e })
            | ok f ↦ read_loop fuel clock (n + 1) (dispatch (clock n) f (record c { dec = x.0 }))
          ] in
          y)
        q

  -- The frames that the peer sends are handled in the order they were sent, each once; then the
  -- connection closes with the reader's error. Any fuel above their number is enough.
  pub read_loop-encode_all :
      (fs : List Frame) (fuel : ℕ) (clock : ℕ → ℕ) (n : ℕ) (c : Conn W) (e : Error)
      → All IsWire fs
      → length fs < fuel
      → read_loop fuel clock n (record c { dec = record { pending = encode_all fs; last = e } })
        ≡ close (record (dispatch_all clock n fs c) {
          dec = record { pending = []; last = e };
          close_err = some e;
        })
  read_loop-encode_all [] zero clock n c e v h = absurd (omega arith)
  read_loop-encode_all [] (suc fuel) clock n c e v h =
      read_loop_step fuel clock n (record c { dec = record { pending = []; last = e } }) _
        (read_frame-nil e)
  read_loop-encode_all (f ∷ fs) zero clock n c e v h = absurd (omega arith)
  read_loop-encode_all (f ∷ fs) (suc fuel) clock n c e v h =
      read_loop_step fuel clock n
        (record c { dec = record { pending = encode f ++ encode_all fs; last = e } }) _
        (read_frame-encode (encode_all fs) e v.0)
      ∙ (rw dispatch_dec
          (read_loop-encode_all fs fuel clock (n + 1) (dispatch (clock n) f c) e v.1 (omega arith)))

  close_ends : (c : Conn W) → ((close c).done ≡ true) × ((close c).close_err ≡ c.close_err)
  unfolding close
  close_ends c = ground arith

  abbrev Ended : Conn W → Type 0
  Ended c = (c.done ≡ true) × ((e : Error) × (c.close_err ≡ some e))

  -- Over any bytes at all the read loop ends: with more fuel than bytes it has closed the
  -- connection and recorded an error.
  pub read_loop_ends :
      (fuel : ℕ) (clock : ℕ → ℕ) (n : ℕ) (c : Conn W)
      → length c.dec.pending < fuel
      → ((read_loop fuel clock n c).done ≡ true)
        × ((e : Error) × ((read_loop fuel clock n c).close_err ≡ some e))
  read_loop_ends zero clock n c h = absurd (omega arith)
  read_loop_ends (suc fuel) clock n c h =
      after (λ n' c' h'. read_loop_ends fuel clock n' c' h') (read_frame c.dec) refl
    where
      after :
          ((n' : ℕ) (c' : Conn W)
            → length c'.dec.pending < fuel
            → Ended (read_loop fuel clock n' c'))
          → (got : Reader × Result Frame) → read_frame c.dec ≡ got
          → Ended (read_loop (suc fuel) clock n c)
      after again (r, err e) q =
          let c' = record c { dec = r; close_err = some e } in
          subst Ended (sym (read_loop_step fuel clock n c (r, err e) q))
            ((close_ends c').0, (e, (close_ends c').1))
      after again (r, ok f) q =
          let c' = record c { dec = r } in
          subst Ended (sym (read_loop_step fuel clock n c (r, ok f) q)) (
            again (n + 1) (dispatch (clock n) f c') (
              rw (ap (λ (x : Conn W). x.dec) (dispatch_dec (clock n) f c r))
                (omega (arith, read_frame_shrinks c.dec q))))
