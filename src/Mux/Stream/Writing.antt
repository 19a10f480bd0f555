-- ===== src/Mux/Stream/Writing.antt =====
-- internal/mux/stream.go, write side: `Write` splits its argument into frames.
use ghost_vpn.Base.{
  ℕ, zero, suc, ◌+◌, ◌≤◌, ◌<◌, ◌≡◌, ◌≢◌, refl, sym, ap, ◌∙◌, inl, inr, true, false, subst, Option,
  none, some, List, [], ◌∷◌, ◌++◌, Bytes, All, length, take, drop, concat, arith, Option-cases,
  append-nil, append_assoc, length-take, length-drop, take-add, drop-drop, take_cast, take_all, ltb,
  ltb→lt, Bool-cases, if◌then◌else◌,
}
use ghost_vpn.Io.{Error, eof, Writer, WriterLaws, stream_closed}
use ghost_vpn.Mux.Frame.{max_payload, type_stream_close}
use ghost_vpn.Mux.Codec.{encode, write_frame}
use ghost_vpn.Mux.Codec.Sending.{write_frame_sent}
use ghost_vpn.Mux.Stream.Reading.{
  IsValid, unread, unread-deliver_err, deliver_err_ends, read_returns,
}
use ghost_vpn.Mux.Stream.{
  Stream, control_frame, deliver_err, close, read, data_frame, chunk_of, write_loop, write,
}

abbrev pub IsChunk : Bytes → Type 0
IsChunk c = (0 < length c) × (length c ≤ max_payload)

-- The encodings of the DATA frames that carry these chunks.
abbrev pub data_frames : ℕ → List Bytes → Bytes
data_frames id [] = []
data_frames id (c ∷ cs) = encode (data_frame id c) ++ data_frames id cs

module _ {W : Type 0} ⦃wr : Writer W⦄ (sent : W → Bytes) where
  -- How a call of `Write` ends: it wrote everything, or the writer failed on the next chunk.
  abbrev pub Ends : ℕ → Bytes → ℕ → W → W → Option Error → Type 0
  Ends id p n reached w' none = (reached ≡ w') × (n ≡ length p)
  Ends id p n reached w' (some e) =
      (n < length p) × (write_frame reached (data_frame id (chunk_of (drop n p))) ≡ (w', some e))

  -- What `Write` of `p` to stream `id` has done when it reports `n` bytes: it has sent the first
  -- `n` bytes of `p`, in order, in DATA frames of that stream none of which is empty or too long.
  pub record Wrote (id : ℕ) (w : W) (p : Bytes) (w' : W) (n : ℕ) (e : Option Error) : Type 0 where
    pub chunks : List Bytes
    pub sizes : All IsChunk chunks
    pub content : concat chunks ≡ take n p
    pub reached : W
    pub on_wire : sent reached ≡ sent w ++ data_frames id chunks
    pub ends : Ends id p n reached w' e

bounded_prefix :
    (m : ℕ) (p : Bytes)
    → 0 < m
    → 0 < length p
    → let c = if ltb m (length p) then take m p else p in
      (0 < length c) × (length c ≤ m) × (take (length c) p ≡ c) × (length c ≤ length p)
bounded_prefix m p hm h = elim (Bool-cases (ltb m (length p))) [
  | inl long ↦ rw long (
    omega (arith, length-take m p, ltb→lt m (length p) long),
    omega (arith, length-take m p),
    take_cast p (length-take m p) ∙ (take_cast p (omega (arith, ltb→lt m (length p) long))),
    omega (arith, length-take m p),
  )
  | inr short ↦ rw short (h, ground arith, take_all (length p) p (omega arith), omega arith)
]

chunk_of_lem :
    (p : Bytes)
    → 0 < length p
    → IsChunk (chunk_of p)
      × (take (length (chunk_of p)) p ≡ chunk_of p)
      × (length (chunk_of p) ≤ length p)
unfolding chunk_of
chunk_of_lem p h = let (a, b, c, d) = bounded_prefix max_payload p (omega arith) h in ((a, b), c, d)

module _ {W : Type 0} ⦃wr : Writer W⦄ {sent : W → Bytes} (laws : WriterLaws wr sent) where
  Ends-cons :
      (id : ℕ) (p : Bytes) (m k : ℕ) (reached w' : W) (e : Option Error)
      → m ≤ length p
      → Ends sent id (drop m p) k reached w' e
      → Ends sent id p (m + k) reached w' e
  Ends-cons id p m k reached w' none h (same, full) = (same, omega (arith, full, length-drop m p))
  Ends-cons id p m k reached w' (some e) h (less, fails) =
      (omega (arith, length-drop m p), rw (← drop-drop m k p) fails)

  Wrote-cons :
      (id : ℕ) (w : W) (p : Bytes) {w' : W} {k : ℕ} {e : Option Error}
      → 0 < length p
      → let c = chunk_of p in
        (write_frame w (data_frame id c)).1 ≡ none
        → Wrote sent id (write_frame w (data_frame id c)).0 (drop (length c) p) w' k e
        → Wrote sent id w p w' (length c + k) e
  Wrote-cons id w p {w'} {k} {e} pos q r =
      let c = chunk_of p in
      let (size, prefix, fits) = chunk_of_lem p pos in
      record {
        chunks = c ∷ r.chunks;
        sizes = (size, r.sizes);
        content =
            ap (◌++◌ c) r.content
            ∙ (ap (λ (x : Bytes). x ++ take k (drop (length c) p)) (sym prefix)
                ∙ sym (take-add (length c) k p));
        reached = r.reached;
        on_wire =
            r.on_wire
            ∙ (ap (λ (x : Bytes). x ++ data_frames id r.chunks)
                  (write_frame_sent laws w (data_frame id c) q).1
                ∙ append_assoc (sent w) (encode (data_frame id c)) (data_frames id r.chunks));
        ends = Ends-cons id p (length c) k r.reached w' e fits r.ends;
      }

  Wrote-nil :
      (id : ℕ) (w : W) (p : Bytes) {w' : W} {e : Option Error}
      → Ends sent id p 0 w w' e
      → Wrote sent id w p w' 0 e
  Wrote-nil id w p ends = record {
    chunks = [];
    sizes = tt;
    content = refl;
    reached = w;
    on_wire = sym (append-nil (sent w));
    ends = ends;
  }

  write_loop-Wrote :
      (fuel : ℕ) (w : W) (id total : ℕ) (p : Bytes)
      → length p ≤ fuel
      → let (w', n, e) = write_loop fuel w id total p in
        (k : ℕ) × (n ≡ total + k) × Wrote sent id w p w' k e
  unfolding write_loop
  write_loop-Wrote fuel w id total [] h = (0, omega arith, Wrote-nil id w [] (refl, refl))
  write_loop-Wrote zero w id total (b ∷ bs) h = absurd (omega arith)
  write_loop-Wrote (suc fuel) w id total (b ∷ bs) h =
      let c = chunk_of (b ∷ bs) in
      let (size, prefix, fits) = chunk_of_lem (b ∷ bs) (omega arith) in
      elim (Option-cases (write_frame w (data_frame id c)).1) [
        | inr (e, q) ↦
            rw (q, write_loop)
              (
                0,
                omega arith,
                Wrote-nil id w (b ∷ bs)
                    (omega arith, λ i. ((write_frame w (data_frame id c)).0, q i)),
              )
        | inl q ↦
            let (k, count, r) =
              write_loop-Wrote fuel (write_frame w (data_frame id c)).0 id (total + length c)
                (drop (length c) (b ∷ bs)) (omega (arith, length-drop (length c) (b ∷ bs))) in
            rw (q, write_loop)
              (length c + k, omega (arith, count), Wrote-cons id w (b ∷ bs) (omega arith) q r)
      ]

  -- On an open stream `Write` sends the bytes that it reports, in DATA frames of its stream, in
  -- order, none of them empty or too long, and it stops early only where the writer refused the
  -- next frame, with that error.
  pub write-Wrote :
      (w : W) (s : Stream) (p : Bytes)
      → s.closed ≡ false
      → let (w', n, e) = write w s p in Wrote sent s.id w p w' n e
  unfolding write
  write-Wrote w s p q =
      let (k, count, r) = write_loop-Wrote (length p) w s.id 0 p (omega arith) in
      let full : (write_loop (length p) w s.id 0 p).1 ≡ k = omega (arith, count) in
      rw (q, write)
        (subst
          (λ (n : ℕ).
            Wrote sent s.id w p (write_loop (length p) w s.id 0 p).0 n
              (write_loop (length p) w s.id 0 p).2)
          (sym full) r)

deliver_err-closed : (e : Error) (s : Stream) → (deliver_err e s).closed ≡ s.closed
unfolding deliver_err
deliver_err-closed e s = ground arith

module _ {W : Type 0} ⦃wr : Writer W⦄ where
  -- `Close` keeps the id and the place of the reader.
  pub close-IsValid :
      (w : W) (s : Stream) → IsValid s → ((close w s).1.id ≡ s.id) × IsValid (close w s).1
  unfolding close deliver_err
  close-IsValid w s v = ground arith

  -- After the first `Close` of a stream, whether or not its STREAM_CLOSE frame was sent: what was
  -- unread stays readable and then a reader gets an error, a `Write` sends nothing and fails, and a
  -- second `Close` does nothing.
  pub close_is_final :
      (w : W) (s : Stream) (k : ℕ) (p : Bytes)
      → s.closed ≡ false
      → let (w', s', e) = close w s in
        (w' ≡ (write_frame w (control_frame type_stream_close s.id)).0)
        × (unread s' ≡ unread s)
        × (read s' k ≢ none)
        × (write w' s' p ≡ (w', 0, some stream_closed))
        × (close w' s' ≡ (w', s', none))
  unfolding close write
  close_is_final w s k p h =
      let ended = deliver_err_ends eof (record s { closed = true }) in
      rw h (
        refl,
        unread-deliver_err eof (record s { closed = true }),
        read_returns (deliver_err eof (record s { closed = true })) k ended.1,
        rw (deliver_err-closed eof (record s { closed = true }), if◌then◌else◌) refl,
        rw (deliver_err-closed eof (record s { closed = true }), if◌then◌else◌) refl,
      )
