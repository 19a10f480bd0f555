-- ===== src/Mux/Conn/Steps.antt =====
-- internal/mux/conn.go: what the goroutines of a connection may do to it, in any order.
use ghost_vpn.Base.{
  ℕ, zero, suc, ◌+◌, ◌%◌, ◌^◌, ◌≡◌, refl, sym, ap, ◌∙◌, inl, inr, Bool, Option, none, some, Bytes,
  length, get_elem?, set, lookup, ltb, Option-cases, if_both, arith, lookup-delete,
}
use ghost_vpn.Io.{ℤ, pos, negsuc, Error, ping_write, ping_timeout, Result, ok, err, Reader, Writer}
use ghost_vpn.Mux.Frame.{Frame, FrameType, max_payload, type_ping, type_padding}
use ghost_vpn.Mux.Stream
use ghost_vpn.Mux.Stream.{Stream, deliver_err, control_frame}
use ghost_vpn.Mux.Stream.Reading
use ghost_vpn.Mux.Stream.Writing
use ghost_vpn.Mux.Conn.{
  Conn, close, open_conn_stream, send_ping, send_padding, dispatch, stream_read, stream_write,
  stream_close, new_conn, send_random, finish_open, announce_stream, register_stream,
  abandon_stream,
}
use ghost_vpn.Mux.Conn.Ping.{ping_check, ping_send, ping_store, finish_ping}
use ghost_vpn.Mux.Conn.Valid.{
  IsValid, set-Holds, add_stream-mapped, close-IsValid, dispatch-IsValid,
}

module _ {W : Type 0} ⦃wr : Writer W⦄ where
  -- A step of the read loop, of the ping loop, or of a caller of the connection or of a stream. The
  -- steps of `OpenStream` may have others between them.
  pub data Step (c : Conn W) : Conn W → Type 0 where
    receive : (now : ℕ) (f : Frame) → Step c (dispatch now f c)
    closing : Step c (close c)
    failing : (e : Error) → Step c (close (record c { close_err = some e }))
    registering : Step c (register_stream c)
    announcing : (id : ℕ) → Step c (announce_stream id c).0
    abandoning : (id : ℕ) → Step c (abandon_stream id c)
    opening : Step c (open_conn_stream c).0
    pinging : (random : ℕ → Result Bytes) → Step c (send_ping random c).0
    padding : (random : ℕ → Result Bytes) (n : ℤ) → Step c (send_padding random n c).0
    checking : (now : ℕ) → Step c (ping_check now c).0
    probing : (random : ℕ → Result Bytes) → Step c (ping_send random c).0
    storing : (now : ℕ) → Step c (ping_store now c)
    reading :
        (h k : ℕ) {c' : Conn W} {got : Bytes} {e : Option Error}
        → stream_read h k c ≡ some (c', got, e)
        → Step c c'
    writing :
        (h : ℕ) (p : Bytes) {c' : Conn W} {n : ℕ} {e : Option Error}
        → stream_write h p c ≡ some (c', n, e)
        → Step c c'
    stopping :
        (h : ℕ) {c' : Conn W} {e : Option Error} → stream_close h c ≡ some (c', e) → Step c c'

  pub data Reach (start : Conn W) : Conn W → Type 0 where
    here : Reach start start
    next : {c c' : Conn W} → Reach start c → Step c c' → Reach start c'

  -- A change of the other fields keeps the invariant.
  same_streams :
      (c c' : Conn W)
      → c'.store ≡ c.store
      → c'.streams ≡ c.streams
      → c'.next_id ≡ c.next_id
      → c'.is_client ≡ c.is_client
      → IsValid c
      → IsValid c'
  same_streams c c' a b d e v = record {
    mapped = λ id h q. rw a (v.mapped id h (ap (lookup id) (sym b) ∙ q));
    parity = rw (d, e) v.parity;
  }

  store_set :
      (c : Conn W) (k : ℕ) (s s' : Stream) (w : W)
      → get_elem? c.store k ≡ some s
      → (Reading.IsValid s → (s'.id ≡ s.id) × Reading.IsValid s')
      → IsValid c
      → IsValid (record c { enc = w; store = set c.store k s' })
  store_set c k s s' w there keep v = record {
    mapped = λ id h q. set-Holds c.store id h k s s' there keep (v.mapped id h q);
    parity = v.parity;
  }

  abandon_stream-IsValid : (id : ℕ) (c : Conn W) → IsValid c → IsValid (abandon_stream id c)
  unfolding abandon_stream
  abandon_stream-IsValid id c v = record {
    mapped = λ j k q. v.mapped j k (ground (arith, lookup-delete id j c.streams));
    parity = v.parity;
  }

  announce_stream-IsValid : (id : ℕ) (c : Conn W) → IsValid c → IsValid (announce_stream id c).0
  unfolding announce_stream
  announce_stream-IsValid id c v = same_streams c _ refl refl refl refl v

  register_stream-IsValid : (c : Conn W) → IsValid c → IsValid (register_stream c)
  unfolding register_stream
  register_stream-IsValid c v =
      let c₁ = record c { next_id = (c.next_id + 2) % 2 ^ 32 } in
      let v₁ : IsValid c₁ = record { mapped = v.mapped; parity = omega (arith, v.parity) } in
      record { mapped = add_stream-mapped c₁ c.next_id v₁; parity = v₁.parity }

  finish_open-IsValid :
      (id h : ℕ) (r : Conn W × Option Error) → IsValid r.0 → IsValid (finish_open id h r).0
  unfolding finish_open
  finish_open-IsValid id h (c, none) v = v
  finish_open-IsValid id h (c, some e) v = abandon_stream-IsValid id c v

  open_conn_stream-IsValid : (c : Conn W) → IsValid c → IsValid (open_conn_stream c).0
  unfolding open_conn_stream
  open_conn_stream-IsValid c v =
      finish_open-IsValid c.next_id (length c.store) (announce_stream c.next_id (register_stream c))
        (announce_stream-IsValid c.next_id (register_stream c) (register_stream-IsValid c v))

  send_random-IsValid :
      (t : FrameType) (got : Result Bytes) (c : Conn W)
      → IsValid c
      → IsValid (send_random t got c).0
  unfolding send_random
  send_random-IsValid t (err e) c v = v
  send_random-IsValid t (ok bytes) c v = same_streams c _ refl refl refl refl v

  send_padding-IsValid :
      (random : ℕ → Result Bytes) (n : ℤ) (c : Conn W)
      → IsValid c
      → IsValid (send_padding random n c).0
  unfolding send_padding
  send_padding-IsValid random (negsuc n) c v = v
  send_padding-IsValid random (pos zero) c v = v
  send_padding-IsValid random (pos (suc n)) c v =
      if_both (λ (r : Conn W × Option Error). IsValid r.0) (ltb max_payload (suc n)) v
        (send_random-IsValid type_padding (random (suc n)) c v)

  close_err-IsValid :
      (c : Conn W) (e : Error) → IsValid c → IsValid (close (record c { close_err = some e }))
  close_err-IsValid c e v = close-IsValid _ (same_streams c _ refl refl refl refl v)

  ping_check-IsValid : (now : ℕ) (c : Conn W) → IsValid c → IsValid (ping_check now c).0
  unfolding ping_check
  ping_check-IsValid now c v =
      if_both (λ (r : Conn W × Bool). IsValid r.0) (ltb c.last_pong c.ping_sent)
        (if_both (λ (r : Conn W × Bool). IsValid r.0) _ (close_err-IsValid c ping_timeout v) v) v

  finish_ping-IsValid : (r : Conn W × Option Error) → IsValid r.0 → IsValid (finish_ping r).0
  unfolding finish_ping
  finish_ping-IsValid (c, none) v = v
  finish_ping-IsValid (c, some e) v = close_err-IsValid c (ping_write e) v

  send_ping-IsValid :
      (random : ℕ → Result Bytes) (c : Conn W) → IsValid c → IsValid (send_ping random c).0
  unfolding send_ping
  send_ping-IsValid random c v = send_random-IsValid type_ping (random 8) c v

  ping_send-IsValid :
      (random : ℕ → Result Bytes) (c : Conn W) → IsValid c → IsValid (ping_send random c).0
  unfolding ping_send
  ping_send-IsValid random c v = finish_ping-IsValid _ (send_ping-IsValid random c v)

  ping_store-IsValid : (now : ℕ) (c : Conn W) → IsValid c → IsValid (ping_store now c)
  unfolding ping_store
  ping_store-IsValid now c v = same_streams c _ refl refl refl refl v

  stream_read-IsValid :
      (h k : ℕ) (c : Conn W) {c' : Conn W} {got : Bytes} {e : Option Error}
      → IsValid c
      → stream_read h k c ≡ some (c', got, e)
      → IsValid c'
  unfolding stream_read
  stream_read-IsValid h k c {c'} v q = elim (Option-cases (get_elem? c.store h)) [
    | inl no_stream ↦ absurd (ground arith)
    | inr (s, there) ↦ elim (Option-cases (Stream.read s k)) [
      | inl waits ↦ absurd (ground arith)
      | inr ((s', got', e'), returned) ↦
          let is : c' ≡ record c { store = set c.store h s' } = ground arith in
          rw is (
            store_set c h s s' c.enc there
              (λ u. let r = Reading.read-IsValid s k u returned in (r.2, r.0)) v)
    ]
  ]

  stream_write-IsValid :
      (h : ℕ) (p : Bytes) (c : Conn W) {c' : Conn W} {n : ℕ} {e : Option Error}
      → IsValid c
      → stream_write h p c ≡ some (c', n, e)
      → IsValid c'
  unfolding stream_write
  stream_write-IsValid h p c {c'} v q = elim (Option-cases (get_elem? c.store h)) [
    | inl no_stream ↦ absurd (ground arith)
    | inr (s, there) ↦
        let is : c' ≡ record c { enc = (Stream.write c.enc s p).0 } = ground arith in
        rw is (same_streams c _ refl refl refl refl v)
  ]

  stream_close-IsValid :
      (h : ℕ) (c : Conn W) {c' : Conn W} {e : Option Error}
      → IsValid c
      → stream_close h c ≡ some (c', e)
      → IsValid c'
  unfolding stream_close
  stream_close-IsValid h c {c'} v q = elim (Option-cases (get_elem? c.store h)) [
    | inl no_stream ↦ absurd (ground arith)
    | inr (s, there) ↦
        let (w, s', e) = Stream.close c.enc s in
        let is : c' ≡ record c { enc = w; store = set c.store h s' } = ground arith in
        rw is (store_set c h s s' w there (Writing.close-IsValid c.enc s) v)
  ]

  -- Every step keeps the invariant: read loop, ping loop and callers in any order.
  pub Step-IsValid : {c c' : Conn W} → Step c c' → IsValid c → IsValid c'
  Step-IsValid {c} (receive now f) v = dispatch-IsValid now f c v
  Step-IsValid {c} closing v = close-IsValid c v
  Step-IsValid {c} (failing e) v = close_err-IsValid c e v
  Step-IsValid {c} registering v = register_stream-IsValid c v
  Step-IsValid {c} (announcing id) v = announce_stream-IsValid id c v
  Step-IsValid {c} (abandoning id) v = abandon_stream-IsValid id c v
  Step-IsValid {c} opening v = open_conn_stream-IsValid c v
  Step-IsValid {c} (pinging random) v = send_ping-IsValid random c v
  Step-IsValid {c} (padding random n) v = send_padding-IsValid random n c v
  Step-IsValid {c} (checking now) v = ping_check-IsValid now c v
  Step-IsValid {c} (probing random) v = ping_send-IsValid random c v
  Step-IsValid {c} (storing now) v = ping_store-IsValid now c v
  Step-IsValid {c} (reading h k q) v = stream_read-IsValid h k c v q
  Step-IsValid {c} (writing h p q) v = stream_write-IsValid h p c v q
  Step-IsValid {c} (stopping h q) v = stream_close-IsValid h c v q

  -- From a new connection, in every state that the goroutines can reach: each stream in the map is
  -- in the store under its own id, with its read offset inside its first message, and the next id
  -- is odd on a client and even on a server.
  pub Reach-IsValid :
      (r : Reader) (w : W) (is_client has_callback : Bool) (now : ℕ) {c : Conn W}
      → Reach (new_conn r w is_client has_callback now) c
      → IsValid c
  unfolding new_conn
  Reach-IsValid r w b cb now here = record {
    mapped = λ id h q. absurd (ground arith);
    parity = ground arith;
  }
  Reach-IsValid r w b cb now (next reach st) = Step-IsValid st (Reach-IsValid r w b cb now reach)
