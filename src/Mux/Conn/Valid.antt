-- ===== src/Mux/Conn/Valid.antt =====
-- internal/mux/conn.go: the invariant of a connection, and that every operation keeps it.
use ghost_vpn.Base.{
  ℕ, zero, suc, ◌+◌, ◌%◌, ◌≡◌, refl, ◌∙◌, subst, inl, inr, Option, none, some, List, [], ◌∷◌, ◌++◌,
  Bytes, length, get_elem?, set, Map, lookup, ◌==◌, ==_iff, if◌then◌else◌, Bool-cases, if_both,
  Option-cases, arith, get_elem?-set_self, get_elem?-set_ne, get_elem?-append_end,
  get_elem?-append_left, lt-length_of_get_elem?, lookup-insert, lookup-delete,
}
use ghost_vpn.Io.{Error, eof, Result, ok, err, Reader, Writer}
use ghost_vpn.Mux.Frame.{
  Frame, type_data, type_stream_open, type_stream_close, type_ping, type_pong, type_padding,
  type_window_update,
}
use ghost_vpn.Mux.Codec.{read_frame}
use ghost_vpn.Mux.Stream.{Stream, new_stream, deliver_data, deliver_err}
use ghost_vpn.Mux.Stream.Reading
use ghost_vpn.Mux.Conn.{
  Conn, modify, modify_found, deliver_all, add_stream, close, dispatch, dispatch_data,
  dispatch_open, dispatch_close, dispatch_ping, read_loop,
}

-- The store has a valid stream with this id at the handle.
pub record Holds (store : List Stream) (id h : ℕ) : Type 0 where
  pub stream : Stream
  pub found : get_elem? store h ≡ some stream
  pub id_is : stream.id ≡ id
  pub valid : Reading.IsValid stream

-- Every stream that the map has is in the store, under its own id; locally opened ids keep the
-- parity of the side.
pub record IsValid {W : Type 0} (c : Conn W) : Type 0 where
  pub mapped : (id h : ℕ) → lookup id c.streams ≡ some h → Holds c.store id h
  pub parity : c.next_id % 2 ≡ (if c.is_client then 1 else 0)

-- A method that keeps the id of a stream, and its validity.
pub record Keeps (f : Stream → Stream) : Type 0 where
  pub id_kept : (s : Stream) → (f s).id ≡ s.id
  pub valid_kept : (s : Stream) → Reading.IsValid s → Reading.IsValid (f s)

pub set-Holds :
    (store : List Stream) (id h k : ℕ) (s s' : Stream)
    → get_elem? store k ≡ some s
    → (Reading.IsValid s → (s'.id ≡ s.id) × Reading.IsValid s')
    → Holds store id h
    → Holds (set store k s') id h
set-Holds store id h k s s' e keep o = elim (Bool-cases (k == h)) [
  | inl q ↦
      let p : k ≡ h = (==_iff k h).0 q in
      let there : o.stream ≡ s = cc (p, e, o.found) in
      let kept = keep (subst Reading.IsValid there o.valid) in
      record {
        stream = s';
        found = rw (← p) (get_elem?-set_self store k s' (lt-length_of_get_elem? store k e));
        id_is = cc (kept.0, there, o.id_is);
        valid = kept.1;
      }
  | inr q ↦ record {
    stream = o.stream;
    found = get_elem?-set_ne store k h s' (λ p. ground arith) ∙ o.found;
    id_is = o.id_is;
    valid = o.valid;
  }
]

modify-Holds :
    (f : Stream → Stream)
    → Keeps f
    → (store : List Stream) (id h k : ℕ) → Holds store id h
    → Holds (modify k f store) id h
modify-Holds f kept store id h k o = elim (Option-cases (get_elem? store k)) [
  | inl none_there ↦ rw none_there o
  | inr (s, there) ↦
      rw there (set-Holds store id h k s (f s) there (λ u. (kept.id_kept s, kept.valid_kept s u)) o)
]

modify_found-Holds :
    (f : Stream → Stream)
    → Keeps f
    → (store : List Stream) (id h : ℕ) (at : Option ℕ) → Holds store id h
    → Holds (modify_found at f store) id h
modify_found-Holds f kept store id h none o = o
modify_found-Holds f kept store id h (some k) o = modify-Holds f kept store id h k o

deliver_data-Keeps : (p : Bytes) → Keeps (deliver_data p)
unfolding deliver_data
deliver_data-Keeps p = record {
  id_kept = λ s. ground arith;
  valid_kept = λ s. Reading.deliver_data-IsValid p s;
}

deliver_err-Keeps : (e : Error) → Keeps (deliver_err e)
unfolding deliver_err
deliver_err-Keeps e = record {
  id_kept = λ s. ground arith;
  valid_kept = λ s. Reading.deliver_err-IsValid e s;
}

deliver_all-Holds :
    (e : Error) (m : Map ℕ) (store : List Stream) (id h : ℕ)
    → Holds store id h
    → Holds (deliver_all e m store) id h
deliver_all-Holds e [] store id h o = o
deliver_all-Holds e ((j, k) ∷ m) store id h o =
    deliver_all-Holds e m (modify k (deliver_err e) store) id h
      (modify-Holds (deliver_err e) (deliver_err-Keeps e) store id h k o)

append-Holds :
    (store : List Stream) (s : Stream) (id h : ℕ) → Holds store id h → Holds (store ++ s ∷ []) id h
append-Holds store s id h o = record {
  stream = o.stream;
  found = get_elem?-append_left store (s ∷ []) h (lt-length_of_get_elem? store h o.found) ∙ o.found;
  id_is = o.id_is;
  valid = o.valid;
}

module _ {W : Type 0} where
  pub close-IsValid : (c : Conn W) → IsValid c → IsValid (close c)
  unfolding close
  close-IsValid c v = elim (Bool-cases c.done) [
    | inl old ↦ simp old v
    | inr new ↦ simp new (record {
      mapped = λ id h q. deliver_all-Holds eof c.streams c.store id h (v.mapped id h q);
      parity = v.parity;
    })
  ]

  pub add_stream-mapped :
      (c : Conn W) (new : ℕ)
      → IsValid c
      → (id h : ℕ) → lookup id (add_stream new c).streams ≡ some h
      → Holds (add_stream new c).store id h
  add_stream-mapped c new v id h q = elim (Bool-cases (new == id)) [
    | inl same ↦
        let at : h ≡ length c.store =
          ground (arith, lookup-insert new id (length c.store) c.streams) in
        record {
          stream = new_stream new;
          found = rw at (get_elem?-append_end c.store (new_stream new));
          id_is = (==_iff new id).0 same;
          valid = refl;
        }
    | inr other ↦
        append-Holds c.store (new_stream new) id h
          (v.mapped id h (ground (arith, lookup-insert new id (length c.store) c.streams)))
  ]

module _ {W : Type 0} ⦃wr : Writer W⦄ where
  dispatch_data-IsValid : (f : Frame) (c : Conn W) → IsValid c → IsValid (dispatch_data f c)
  unfolding dispatch_data
  dispatch_data-IsValid f c v = record {
    mapped = λ id h q.
        modify_found-Holds (deliver_data f.payload) (deliver_data-Keeps f.payload) c.store id h
          (lookup f.stream_id c.streams) (v.mapped id h q);
    parity = v.parity;
  }

  dispatch_open-IsValid : (f : Frame) (c : Conn W) → IsValid c → IsValid (dispatch_open f c)
  unfolding dispatch_open
  dispatch_open-IsValid f c v =
      if_both IsValid c.has_callback
        (record { mapped = add_stream-mapped c f.stream_id v; parity = v.parity })
        (record { mapped = add_stream-mapped c f.stream_id v; parity = v.parity })

  dispatch_close-IsValid : (f : Frame) (c : Conn W) → IsValid c → IsValid (dispatch_close f c)
  unfolding dispatch_close
  dispatch_close-IsValid f c v = record {
    mapped = λ id h q.
        modify_found-Holds (deliver_err eof) (deliver_err-Keeps eof) c.store id h
          (lookup f.stream_id c.streams)
          (v.mapped id h (ground (arith, lookup-delete f.stream_id id c.streams)));
    parity = v.parity;
  }

  dispatch_ping-IsValid : (f : Frame) (c : Conn W) → IsValid c → IsValid (dispatch_ping f c)
  unfolding dispatch_ping
  dispatch_ping-IsValid f c v = record { mapped = v.mapped; parity = v.parity }

  -- Whatever frame the peer sends, handling it keeps the invariant.
  pub dispatch-IsValid : (now : ℕ) (f : Frame) (c : Conn W) → IsValid c → IsValid (dispatch now f c)
  unfolding dispatch dispatch_data dispatch_open dispatch_close dispatch_ping
  dispatch-IsValid now f c v =
      if_both IsValid (f.ftype == type_data) (dispatch_data-IsValid f c v) (
        if_both IsValid (f.ftype == type_stream_open) (dispatch_open-IsValid f c v) (
          if_both IsValid (f.ftype == type_stream_close) (dispatch_close-IsValid f c v) (
            if_both IsValid (f.ftype == type_ping) (dispatch_ping-IsValid f c v) (
              if_both IsValid (f.ftype == type_pong)
                (record { mapped = v.mapped; parity = v.parity })
                (if_both IsValid (f.ftype == type_padding) v
                  (if_both IsValid (f.ftype == type_window_update) v v))))))

  -- The read loop keeps it, over any stream of bytes, up to and including the final `Close`.
  pub read_loop-IsValid :
      (fuel : ℕ) (clock : ℕ → ℕ) (n : ℕ) (c : Conn W)
      → IsValid c
      → IsValid (read_loop fuel clock n c)
  unfolding read_loop
  read_loop-IsValid zero clock n c v = v
  read_loop-IsValid (suc fuel) clock n c v =
      after (λ c' v'. read_loop-IsValid fuel clock (n + 1) c' v') (read_frame c.dec)
    where
      after :
          ((c' : Conn W) → IsValid c' → IsValid (read_loop fuel clock (n + 1) c'))
          → (got : Reader × Result Frame)
          → IsValid (elim got.1 [
            | err e ↦ close (record c { dec = got.0; close_err = some e })
            | ok f ↦ read_loop fuel clock (n + 1) (dispatch (clock n) f (record c { dec = got.0 }))
          ])
      after again (r, err e) = close-IsValid _ (record { mapped = v.mapped; parity = v.parity })
      after again (r, ok f) =
          again _ (dispatch-IsValid (clock n) f _ (record { mapped = v.mapped; parity = v.parity }))
