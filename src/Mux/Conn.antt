-- ===== src/Mux/Conn.antt =====
-- internal/mux/conn.go: a connection. The streams that the program holds pointers to are a store;
-- a handle is an index into it, and the map `streams` holds handles. Goroutines appear as the
-- functions that they run: `read_loop`, and the parts of a round of `pingLoop` (Mux/Conn/Ping.antt). A function is one
-- step: the frame that `dispatch` handles, or what stands between two waits. Times are nanoseconds.
pub mod Store
pub mod Valid
pub mod Steps
pub mod Loop
pub mod Delivery
pub mod Shutdown
pub mod Ping
use ghost_vpn.Base.{
  ℕ, zero, suc, ◌+◌, ◌*◌, ◌/◌, ◌%◌, ◌^◌, Bool, true, false, Option, none, some, List, [], ◌∷◌, ◌++◌,
  Bytes, length, get_elem?, set, Map, lookup, insert, delete, ltb, ◌==◌, if◌then◌else◌,
}
use ghost_vpn.Io.{
  ℤ, pos, negsuc, Error, eof, ping_timeout, padding_out_of_range, open_stream, ping_write, Result,
  ok, err, Reader, Writer,
}
use ghost_vpn.Mux.Frame.{
  Frame, FrameType, max_payload, protocol_version, type_data, type_window_update, type_stream_open,
  type_stream_close, type_ping, type_padding, type_pong,
}
use ghost_vpn.Mux.Codec.{write_frame, read_frame}
use ghost_vpn.Mux.Stream
use ghost_vpn.Mux.Stream.{Stream, new_stream, deliver_data, deliver_err, control_frame}

-- `time.Time.Unix`
abbrev pub unix : ℕ → ℕ
unix now = now / 10 ^ 9

-- `Conn`. `enc` is the writer of the encoder and `dec` the reader of the decoder; `accepted` is
-- the streams that `onStream` was called with, and `has_callback` says that it is not nil.
pub record Conn (W : Type 0) : Type 0 where
  pub enc : W
  pub dec : Reader
  pub is_client : Bool
  pub next_id : ℕ
  pub store : List Stream
  pub streams : Map ℕ
  pub has_callback : Bool
  pub accepted : List ℕ
  pub done : Bool
  pub close_err : Option Error
  pub last_pong : ℕ
  pub ping_sent : ℕ

abbrev update : List Stream → ℕ → (Stream → Stream) → Option Stream → List Stream
update store h f none = store
update store h f (some s) = set store h (f s)

-- A method of the stream at a handle.
abbrev pub modify : ℕ → (Stream → Stream) → List Stream → List Stream
modify h f store = update store h f (get_elem? store h)

-- The same through the map: nothing where the map has no such stream.
abbrev pub modify_found : Option ℕ → (Stream → Stream) → List Stream → List Stream
modify_found none f store = store
modify_found (some h) f store = modify h f store

-- The body of `for _, s := range c.streams` in `Close`.
abbrev pub deliver_all : Error → Map ℕ → List Stream → List Stream
deliver_all e [] store = store
deliver_all e ((id, h) ∷ m) store = deliver_all e m (modify h (deliver_err e) store)

module _ {W : Type 0} where
  -- `NewConn`, before its goroutines start.
  unfoldable pub new_conn : Reader → W → Bool → Bool → ℕ → Conn W
  new_conn r w is_client has_callback now = record {
    enc = w;
    dec = r;
    is_client = is_client;
    next_id = if is_client then 1 else 2;
    store = [];
    streams = [];
    has_callback = has_callback;
    accepted = [];
    done = false;
    close_err = none;
    last_pong = unix now;
    ping_sent = unix now;
  }

  -- `closeOnce` makes a second call do nothing.
  unfoldable pub close : Conn W → Conn W
  close c =
      if c.done then c else record c { done = true; store = deliver_all eof c.streams c.store }

  -- `Read` of the stream at a handle; `none` is a handle that is none, or a read that waits.
  unfoldable pub stream_read : ℕ → ℕ → Conn W → Option (Conn W × Bytes × Option Error)
  stream_read h k c = elim (get_elem? c.store h) [
    | none ↦ none
    | some s ↦ elim (Stream.read s k) [
      | none ↦ none
      | some (s', got, e) ↦ some (record c { store = set c.store h s' }, got, e)
    ]
  ]

  -- `c.streams[id] = newStream(id, c)`; the handle is the length of the store before.
  abbrev pub add_stream : ℕ → Conn W → Conn W
  add_stream id c = record c {
    store = c.store ++ new_stream id ∷ [];
    streams = insert id (length c.store) c.streams;
  }

-- A frame on stream 0 with this payload.
abbrev pub conn_frame : FrameType → Bytes → Frame
conn_frame t payload = record {
  version = protocol_version;
  ftype = t;
  stream_id = 0;
  payload = payload;
}

module _ {W : Type 0} ⦃wr : Writer W⦄ where
  -- `OpenStream` in its steps: what it does under its lock, the frame that it writes without the
  -- lock, and, where that fails, what it does under the lock again.
  unfoldable pub register_stream : Conn W → Conn W
  register_stream c = add_stream c.next_id (record c { next_id = (c.next_id + 2) % 2 ^ 32 })

  unfoldable pub announce_stream : ℕ → Conn W → Conn W × Option Error
  announce_stream id c =
      let (w, e) = write_frame c.enc (control_frame type_stream_open id) in
      (record c { enc = w }, e)

  unfoldable pub abandon_stream : ℕ → Conn W → Conn W
  abandon_stream id c = record c { streams = delete id c.streams }

  finish_open : ℕ → ℕ → Conn W × Option Error → Conn W × Result ℕ
  finish_open id h (c, none) = (c, ok h)
  finish_open id h (c, some e) = (abandon_stream id c, err (open_stream e))

  -- `OpenStream` where nothing comes between its steps: the handle of the new stream, or the error.
  unfoldable pub open_conn_stream : Conn W → Conn W × Result ℕ
  unfolding finish_open
  open_conn_stream c =
      finish_open c.next_id (length c.store) (announce_stream c.next_id (register_stream c))

  send_random : FrameType → Result Bytes → Conn W → Conn W × Option Error
  send_random t (err e) c = (c, some e)
  send_random t (ok bytes) c =
      let (w, e) = write_frame c.enc (conn_frame t bytes) in (record c { enc = w }, e)

  -- `SendPing`; `random` is `rand.Read` into a buffer of that many bytes.
  unfoldable pub send_ping : (ℕ → Result Bytes) → Conn W → Conn W × Option Error
  unfolding send_random
  send_ping random c = send_random type_ping (random 8) c

  unfoldable pub send_padding : (ℕ → Result Bytes) → ℤ → Conn W → Conn W × Option Error
  unfolding send_random
  send_padding random (negsuc n) c = (c, some (padding_out_of_range (negsuc n)))
  send_padding random (pos zero) c = (c, some (padding_out_of_range (pos 0)))
  send_padding random (pos (suc n)) c =
      if ltb max_payload (suc n)
      then (c, some (padding_out_of_range (pos (suc n))))
      else send_random type_padding (random (suc n)) c

  dispatch_data : Frame → Conn W → Conn W
  dispatch_data f c = record c {
    store = modify_found (lookup f.stream_id c.streams) (deliver_data f.payload) c.store;
  }

  dispatch_open : Frame → Conn W → Conn W
  dispatch_open f c =
      let c' = add_stream f.stream_id c in
      if c.has_callback then record c' { accepted = c'.accepted ++ length c.store ∷ [] } else c'

  dispatch_close : Frame → Conn W → Conn W
  dispatch_close f c = record c {
    streams = delete f.stream_id c.streams;
    store = modify_found (lookup f.stream_id c.streams) (deliver_err eof) c.store;
  }

  -- The result of the reply is dropped (`_ =`).
  dispatch_ping : Frame → Conn W → Conn W
  dispatch_ping f c = record c { enc = (write_frame c.enc (conn_frame type_pong f.payload)).0 }

  -- `dispatch` at time `now`. PADDING, WINDOW_UPDATE and unknown types change nothing.
  unfoldable pub dispatch : ℕ → Frame → Conn W → Conn W
  unfolding dispatch_data dispatch_open dispatch_close dispatch_ping
  dispatch now f c =
      if f.ftype == type_data
      then dispatch_data f c
      else if f.ftype == type_stream_open
      then dispatch_open f c
      else if f.ftype == type_stream_close
      then dispatch_close f c
      else if f.ftype == type_ping
      then dispatch_ping f c
      else if f.ftype == type_pong
      then record c { last_pong = unix now }
      else if f.ftype == type_padding
      then c
      else if f.ftype == type_window_update
      then c
      else c

  -- `readLoop` with its deferred `Close`; frame `n` of the connection is handled at time `clock n`.
  -- Each round reads a header of eight bytes, so the bytes that will arrive are fuel enough.
  unfoldable pub read_loop : ℕ → (ℕ → ℕ) → ℕ → Conn W → Conn W
  read_loop zero clock n c = c
  read_loop (suc fuel) clock n c =
      let (r, got) = read_frame c.dec in
      elim got [
        | err e ↦ close (record c { dec = r; close_err = some e })
        | ok f ↦ read_loop fuel clock (n + 1) (dispatch (clock n) f (record c { dec = r }))
      ]

  -- `Write` and `Close` of the stream at a handle; `none` is a handle that is none.
  unfoldable pub stream_write : ℕ → Bytes → Conn W → Option (Conn W × ℕ × Option Error)
  stream_write h p c = elim (get_elem? c.store h) [
    | none ↦ none
    | some s ↦ let (w, n, e) = Stream.write c.enc s p in some (record c { enc = w }, n, e)
  ]

  unfoldable pub stream_close : ℕ → Conn W → Option (Conn W × Option Error)
  stream_close h c = elim (get_elem? c.store h) [
    | none ↦ none
    | some s ↦
        let (w, s', e) = Stream.close c.enc s in
        some (record c { enc = w; store = set c.store h s' }, e)
  ]
