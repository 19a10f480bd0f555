-- ===== src/Mux/Conn/Shutdown.antt =====
-- internal/mux/conn.go: what `Close` does to the readers of the streams, and whom it misses.
use ghost_vpn.Base.{
  ℕ, ◌≡◌, ◌≢◌, refl, sym, ◌∙◌, inl, inr, true, false, none, some, List, [], ◌∷◌, ◌++◌, Bytes,
  length, get_elem?, Map, lookup, ◌==◌, Bool-cases, arith, All, subst, delete,
  lt-length_of_get_elem?, get_elem?-append_left, insert,
}
use ghost_vpn.Io.{Error, eof, Writer}
use ghost_vpn.Mux.Frame.{Frame, type_stream_open}
use ghost_vpn.Mux.Stream.{Stream, deliver_err, read}
use ghost_vpn.Mux.Stream.Reading.{unread, unread-deliver_err, deliver_err_ends, read_returns}
use ghost_vpn.Mux.Conn.{
  Conn, modify, deliver_all, close, dispatch, dispatch_data, dispatch_open, dispatch_close,
  dispatch_ping, Frame, new_stream,
}
use ghost_vpn.Mux.Conn.Store.{get_elem?-modify}

-- The stream at the handle has an error and these messages unread.
pub record Ended (store : List Stream) (h : ℕ) (msgs : List Bytes) : Type 0 where
  pub stream : Stream
  pub found : get_elem? store h ≡ some stream
  pub error : Error
  pub ended : stream.read_err ≡ some error
  pub unread_is : unread stream ≡ msgs

modify-Ended :
    (e : Error) (k : ℕ) (store : List Stream) (h : ℕ) (msgs : List Bytes)
    → Ended store h msgs
    → Ended (modify k (deliver_err e) store) h msgs
unfolding deliver_err
modify-Ended e k store h msgs o = record {
  stream = o.stream;
  found = ground (arith, get_elem?-modify k h (deliver_err e) store);
  error = o.error;
  ended = o.ended;
  unread_is = o.unread_is;
}

deliver_all-Ended :
    (e : Error) (m : Map ℕ) (store : List Stream) (h : ℕ) (msgs : List Bytes)
    → Ended store h msgs
    → Ended (deliver_all e m store) h msgs
deliver_all-Ended e [] store h msgs o = o
deliver_all-Ended e ((j, k) ∷ m) store h msgs o =
    deliver_all-Ended e m (modify k (deliver_err e) store) h msgs (modify-Ended e k store h msgs o)

deliver_all_reaches :
    (e : Error) (m : Map ℕ) (store : List Stream) (id h : ℕ) (s : Stream)
    → lookup id m ≡ some h
    → get_elem? store h ≡ some s
    → Ended (deliver_all e m store) h (unread s)
deliver_all_reaches e [] store id h s l g = absurd (ground arith)
deliver_all_reaches e ((j, k) ∷ m) store id h s l g = elim (Bool-cases (k == h)) [
  | inl same ↦ deliver_all-Ended e m _ h (unread s) (record {
    stream = deliver_err e s;
    found = ground (arith, get_elem?-modify k h (deliver_err e) store);
    error = (deliver_err_ends e s).0;
    ended = (deliver_err_ends e s).1;
    unread_is = unread-deliver_err e s;
  })
  | inr other ↦
      deliver_all_reaches e m (modify k (deliver_err e) store) id h s (ground arith)
        (ground (arith, get_elem?-modify k h (deliver_err e) store))
]

-- What is not in the map is not reached.
deliver_all_misses :
    (e : Error) (m : Map ℕ) (store : List Stream) (h : ℕ)
    → All (λ (p : ℕ × ℕ). p.1 ≢ h) m
    → get_elem? (deliver_all e m store) h ≡ get_elem? store h
deliver_all_misses e [] store h a = refl
deliver_all_misses e ((j, k) ∷ m) store h a =
    deliver_all_misses e m (modify k (deliver_err e) store) h a.1
    ∙ ground (arith, get_elem?-modify k h (deliver_err e) store, a.0)

module _ {W : Type 0} ⦃wr : Writer W⦄ where
  -- `Close` of an open connection ends every stream that the map has: it keeps its unread messages,
  -- and after them a reader gets an error instead of waiting.
  pub close_ends_readers :
      (c : Conn W) (id h k : ℕ) (s : Stream)
      → c.done ≡ false
      → lookup id c.streams ≡ some h
      → get_elem? c.store h ≡ some s
      → (o : Ended (close c).store h (unread s)) × (read o.stream k ≢ none)
  unfolding close
  close_ends_readers c id h k s live l g =
      let o = deliver_all_reaches eof c.streams c.store id h s l g in
      let p : close c ≡ record c { done = true; store = deliver_all eof c.streams c.store } =
        simp live in
      let o' : Ended (close c).store h (unread s) =
        subst (λ (x : Conn W). Ended x.store h (unread s)) (sym p) o in
      (o', read_returns o'.stream k o'.ended)

  -- A second `Close` changes nothing.
  pub close_twice : (c : Conn W) → close (close c) ≡ close c
  unfolding close
  close_twice c = ground arith

  -- A second STREAM_OPEN for an id replaces the stream that has it: the old one is in no map any
  -- more, so that `Close` of the connection does not end it, and its reader waits on.
  pub reopen_orphans :
      (now : ℕ) (f : Frame) (c : Conn W) (h k : ℕ) {s : Stream}
      → f.ftype ≡ type_stream_open
      → lookup f.stream_id c.streams ≡ some h
      → All (λ (p : ℕ × ℕ). p.1 ≢ h) (delete f.stream_id c.streams)
      → get_elem? c.store h ≡ some s
      → read s k ≡ none
      → (t : Stream) × (get_elem? (close (dispatch now f c)).store h ≡ some t) × (read t k ≡ none)
  unfolding dispatch dispatch_data dispatch_open dispatch_close dispatch_ping close
  reopen_orphans now f c h k {s} t l alone g waits =
      let below = lt-length_of_get_elem? c.store h g in
      let kept = get_elem?-append_left c.store (new_stream f.stream_id ∷ []) h below in
      (
        s,
        ground (
          arith,
          kept,
          deliver_all_misses eof (insert f.stream_id (length c.store) c.streams)
              (c.store ++ new_stream f.stream_id ∷ []) h ((λ p. omega (arith, p, below)), alone),
        ),
        waits,
      )
