-- ===== src/Mux/Conn/Delivery.antt =====
-- internal/mux/stream.go and conn.go together: what one side writes to a stream, the other reads.
use ghost_vpn.Base.{
  ℕ, ◌+◌, ◌^◌, ◌<◌, ◌≡◌, ◌≢◌, refl, sym, ap, ◌∙◌, false, Option, none, some, List, [], ◌∷◌, ◌++◌,
  Bytes, All, AreBytes, IsByte, map, ◌==◌, length, concat, get_elem?, lookup, Map, append_assoc,
  append-nil, arith, get_elem?-set_self, get_elem?-set_ne, lt-length_of_get_elem?, All-of_concat,
  append_cancel_left, take_all, subst, inl, inr, if_both, Bool-cases,
}
use ghost_vpn.Io.{Error, eof, Writer, WriterLaws}
use ghost_vpn.Mux.Frame.{Frame, IsWire, type_data}
use ghost_vpn.Mux.Codec.{encode}
use ghost_vpn.Mux.Stream.{Stream, data_frame, deliver_data, deliver_err, write}
use ghost_vpn.Mux.Stream.Reading
use ghost_vpn.Mux.Conn.Store.{get_elem?-modify}
use ghost_vpn.Mux.Stream.Reading.{unread-deliver_err, unread}
use ghost_vpn.Mux.Stream.Writing.{IsChunk, data_frames, Ends, Wrote, write-Wrote}
use ghost_vpn.Mux.Conn.{Conn, modify, deliver_all, close, dispatch, dispatch_data, read_loop}
use ghost_vpn.Mux.Conn.Loop.{encode_all, length-encode_all, dispatch_all, read_loop-encode_all}

module _ {W : Type 0} ⦃wr : Writer W⦄ where
  dispatch_delivers_at :
      (now : ℕ) (f : Frame) (c : Conn W) (h : ℕ) {t : Stream}
      → f.ftype ≡ type_data
      → lookup f.stream_id c.streams ≡ some h
      → get_elem? c.store h ≡ some t
      → (get_elem? (dispatch now f c).store h ≡ some (deliver_data f.payload t))
        × ((dispatch now f c).streams ≡ c.streams)
  unfolding dispatch dispatch_data
  dispatch_delivers_at now f c h {t} d l g = ground (
    arith,
    get_elem?-set_self c.store h (deliver_data f.payload t),
    lt-length_of_get_elem? c.store h g,
  )

  -- A DATA frame goes to the stream that the map has for its id, and to no other; the map stays.
  pub dispatch_delivers :
      (now : ℕ) (f : Frame) (c : Conn W) (h k : ℕ) {t : Stream}
      → f.ftype ≡ type_data
      → lookup f.stream_id c.streams ≡ some h
      → get_elem? c.store h ≡ some t
      → k ≢ h
      → (get_elem? (dispatch now f c).store h ≡ some (deliver_data f.payload t))
        × (get_elem? (dispatch now f c).store k ≡ get_elem? c.store k)
        × ((dispatch now f c).streams ≡ c.streams)
  unfolding dispatch dispatch_data
  dispatch_delivers now f c h k {t} d l g ne = ground (
    arith,
    dispatch_delivers_at now f c h d l g,
    get_elem?-set_ne c.store h k (deliver_data f.payload t),
  )

  -- The stream at a handle, open, with these bytes unread.
  record Has (c : Conn W) (h : ℕ) (bytes : Bytes) : Type 0 where
    stream : Stream
    found : get_elem? c.store h ≡ some stream
    no_error : stream.read_err ≡ none
    valid : Reading.IsValid stream
    unread_is : concat (unread stream) ≡ bytes

  dispatch-Has :
      (now id h : ℕ) (x : Bytes) (c : Conn W) (bytes : Bytes)
      → lookup id c.streams ≡ some h
      → Has c h bytes
      → Has (dispatch now (data_frame id x) c) h (bytes ++ x)
        × (lookup id (dispatch now (data_frame id x) c).streams ≡ some h)
  dispatch-Has now id h x c bytes l o =
      let at = dispatch_delivers_at now (data_frame id x) c h refl l o.found in
      let more = Reading.deliver_data_open x o.stream o.valid o.no_error in
      (
        record {
          stream = deliver_data x o.stream;
          found = at.0;
          no_error = more.0;
          valid = Reading.deliver_data-IsValid x o.stream o.valid;
          unread_is = more.1 ∙ ap (λ (y : Bytes). y ++ x) o.unread_is;
        },
        ap (lookup id) at.1 ∙ l,
      )

  dispatch_all-Has :
      (clock : ℕ → ℕ) (n id h : ℕ) (chunks : List Bytes) (c : Conn W) (bytes : Bytes)
      → lookup id c.streams ≡ some h
      → Has c h bytes
      → Has (dispatch_all clock n (map (data_frame id) chunks) c) h (bytes ++ concat chunks)
        × (lookup id (dispatch_all clock n (map (data_frame id) chunks) c).streams ≡ some h)
  dispatch_all-Has clock n id h [] c bytes l o = (rw append-nil o, l)
  dispatch_all-Has clock n id h (x ∷ xs) c bytes l o =
      let one = dispatch-Has (clock n) id h x c bytes l o in
      rw (← append_assoc bytes x (concat xs)) (
        dispatch_all-Has clock (n + 1) id h xs (dispatch (clock n) (data_frame id x) c) (bytes ++ x)
          one.1 one.0)

data_frames-encode_all :
    (id : ℕ) (chunks : List Bytes) → data_frames id chunks ≡ encode_all (map (data_frame id) chunks)
data_frames-encode_all id [] = refl
data_frames-encode_all id (x ∷ xs) =
    ap (◌++◌ (encode (data_frame id x))) (data_frames-encode_all id xs)

data_frame-IsWire :
    (id : ℕ) (chunks : List Bytes)
    → id < 2 ^ 32
    → All IsChunk chunks
    → All AreBytes chunks
    → All IsWire (map (data_frame id) chunks)
data_frame-IsWire id [] h s b = tt
data_frame-IsWire id (x ∷ xs) h s b = (
  record {
    version_is = refl;
    type_byte = omega arith;
    id_word = h;
    payload_fits = s.0.1;
    payload_bytes = b.0;
  },
  data_frame-IsWire id xs h s.1 b.1,
)

-- The stream at the handle has the same bytes unread.
pub record Kept (store : List Stream) (h : ℕ) (bytes : Bytes) : Type 0 where
  pub stream : Stream
  pub found : get_elem? store h ≡ some stream
  pub unread_is : concat (unread stream) ≡ bytes

modify-Kept :
    (e : Error) (k : ℕ) (store : List Stream) (h : ℕ) (bytes : Bytes)
    → Kept store h bytes
    → Kept (modify k (deliver_err e) store) h bytes
modify-Kept e k store h bytes o = elim (Bool-cases (k == h)) [
  | inl same ↦ record {
    stream = deliver_err e o.stream;
    found = rw (get_elem?-modify k h (deliver_err e) store, same, o.found);
    unread_is = ap concat (unread-deliver_err e o.stream) ∙ o.unread_is;
  }
  | inr other ↦ record {
    stream = o.stream;
    found = rw (get_elem?-modify k h (deliver_err e) store, other, o.found);
    unread_is = o.unread_is;
  }
]

deliver_all-Kept :
    (e : Error) (m : Map ℕ) (store : List Stream) (h : ℕ) (bytes : Bytes)
    → Kept store h bytes
    → Kept (deliver_all e m store) h bytes
deliver_all-Kept e [] store h bytes o = o
deliver_all-Kept e ((j, k) ∷ m) store h bytes o =
    deliver_all-Kept e m (modify k (deliver_err e) store) h bytes (modify-Kept e k store h bytes o)

module _ {W : Type 0} ⦃wr : Writer W⦄ where
  close-Kept :
      (c : Conn W) (h : ℕ) (bytes : Bytes) → Kept c.store h bytes → Kept (close c).store h bytes
  unfolding close
  close-Kept c h bytes o =
      if_both (λ (c' : Conn W). Kept c'.store h bytes) c.done o
        (deliver_all-Kept eof c.streams c.store h bytes o)

module _ {W : Type 0} ⦃wr : Writer W⦄ where
  -- One side writes `p` to its open stream, and no call fails. The peer, whose connection has a
  -- stream of the same id with no error, has still to read what that call sent, and then the
  -- transport ends. Then its read loop ends with exactly `p` added to what a reader of that stream
  -- will get, in order, however many frames `Write` made of it.
  pub write_reaches_reader :
      {sent : W → Bytes} (laws : WriterLaws wr sent) (w : W) (s : Stream) (p : Bytes) (fuel : ℕ)
      (clock : ℕ → ℕ) (n h : ℕ) (c : Conn W) (t : Stream)
      → s.closed ≡ false
      → s.id < 2 ^ 32
      → AreBytes p
      → (write w s p).2 ≡ none
      → sent (write w s p).0 ≡ sent w ++ c.dec.pending
      → lookup s.id c.streams ≡ some h
      → get_elem? c.store h ≡ some t
      → t.read_err ≡ none
      → Reading.IsValid t
      → length c.dec.pending < fuel
      → Kept (read_loop fuel clock n c).store h (concat (unread t) ++ p)
  write_reaches_reader {sent} laws w s p fuel clock n h c t is_open id bs fine wire l g ok valid
        enough =
      subst (λ (x : Conn W). Kept x.store h (concat (unread t) ++ p)) (sym ran)
        (close-Kept _ h (concat (unread t) ++ p) (record {
          stream = got.0.stream;
          found = got.0.found;
          unread_is = got.0.unread_is ∙ ap (λ (x : Bytes). concat (unread t) ++ x) content;
        }))
    where
      v : let (w', m, e) = write w s p in Wrote sent s.id w p w' m e
      v = write-Wrote laws w s p is_open

      complete : Ends sent s.id p (write w s p).1 v.reached (write w s p).0 none
      complete =
          subst (λ (e : Option Error). Ends sent s.id p (write w s p).1 v.reached (write w s p).0 e)
            fine v.ends

      content : concat v.chunks ≡ p
      content = v.content ∙ take_all (write w s p).1 p (omega (arith, complete.1))

      frames : List Frame
      frames = map (data_frame s.id) v.chunks

      pending : c.dec.pending ≡ encode_all frames
      pending =
          append_cancel_left (sent w) c.dec.pending (data_frames s.id v.chunks)
            (sym wire ∙ ap sent (sym complete.0) ∙ v.on_wire)
          ∙ data_frames-encode_all s.id v.chunks

      on_wire : All IsWire frames
      on_wire =
          data_frame-IsWire s.id v.chunks id v.sizes
            (All-of_concat IsByte v.chunks (subst AreBytes (sym content) bs))

      ran :
          read_loop fuel clock n c
          ≡ close (record (dispatch_all clock n frames c) {
            dec = record { pending = []; last = c.dec.last };
            close_err = some c.dec.last;
          })
      ran =
          (λ i.
            read_loop fuel clock n
              (record c { dec = record { pending = pending i; last = c.dec.last } }))
          ∙ read_loop-encode_all frames fuel clock n c c.dec.last on_wire
              (omega (arith, ap length pending, length-encode_all frames))

      got :
          Has (dispatch_all clock n frames c) h (concat (unread t) ++ concat v.chunks)
          × (lookup s.id (dispatch_all clock n frames c).streams ≡ some h)
      got =
          dispatch_all-Has clock n s.id h v.chunks c (concat (unread t)) l
            (record { stream = t; found = g; no_error = ok; valid = valid; unread_is = refl })
