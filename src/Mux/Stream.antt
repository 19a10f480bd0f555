-- ===== src/Mux/Stream.antt =====
-- internal/mux/stream.go: a logical stream. Each method is one atomic step (its mutex). What a
-- method needs of the connection, the encoder, is the writer that it takes and returns.
pub mod Reading
pub mod Writing
use ghost_vpn.Base.{
  ℕ, zero, suc, ◌+◌, ◌-◌, Bool, true, false, Option, none, some, List, [], ◌∷◌, ◌++◌, Bytes, length,
  take, drop, min, ltb, leb, if◌then◌else◌,
}
use ghost_vpn.Io.{Error, eof, stream_closed, Writer}
use ghost_vpn.Mux.Frame.{
  Frame, FrameType, max_payload, protocol_version, type_data, type_stream_close,
}
use ghost_vpn.Mux.Codec.{write_frame}

-- `Stream`, without its mutexes and its pointer to the connection.
pub record Stream : Type 0 where
  pub id : ℕ
  pub read_msgs : List Bytes
  pub read_off : ℕ
  pub read_err : Option Error
  pub closed : Bool

abbrev pub new_stream : ℕ → Stream
new_stream id = record { id = id; read_msgs = []; read_off = 0; read_err = none; closed = false }

-- `copy(p, msg[s.readOff:])` into a buffer of `k` bytes, at the first message of the queue.
read_message : Stream → ℕ → Bytes → List Bytes → Stream × Bytes × Option Error
read_message s k msg rest =
    let n = min k (length msg - s.read_off) in
    let got = take n (drop s.read_off msg) in
    if leb (length msg) (s.read_off + n)
    then (record s { read_msgs = rest; read_off = 0 }, got, none)
    else (record s { read_off = s.read_off + n }, got, none)

abbrev read_queue : Stream → ℕ → List Bytes → Option Error → Option (Stream × Bytes × Option Error)
read_queue s k (msg ∷ rest) e = some (read_message s k msg rest)
read_queue s k [] none = none
read_queue s k [] (some e) = some (s, [], some e)

-- `Read` into a buffer of `k` bytes: the bytes it returns and its error. `none` is a call that
-- waits: no message is queued and there is no error.
unfoldable pub read : Stream → ℕ → Option (Stream × Bytes × Option Error)
unfolding read_message
read s k = read_queue s k s.read_msgs s.read_err

unfoldable pub deliver_data : Bytes → Stream → Stream
deliver_data payload s = elim s.read_err [
  | some e ↦ s
  | none ↦ record s { read_msgs = s.read_msgs ++ payload ∷ [] }
]

unfoldable pub deliver_err : Error → Stream → Stream
deliver_err e s = elim s.read_err [ some e' ↦ s | none ↦ record s { read_err = some e } ]

-- The frame of a chunk of data.
abbrev pub data_frame : ℕ → Bytes → Frame
data_frame id chunk = record {
  version = protocol_version;
  ftype = type_data;
  stream_id = id;
  payload = chunk;
}

-- A frame with no payload.
abbrev pub control_frame : FrameType → ℕ → Frame
control_frame t id = record { version = protocol_version; ftype = t; stream_id = id; payload = [] }

-- The next chunk of `p`: all of it, or as much as a frame holds.
unfoldable pub chunk_of : Bytes → Bytes
chunk_of p = if ltb max_payload (length p) then take max_payload p else p

module _ {W : Type 0} ⦃wr : Writer W⦄ where
  -- The loop of `Write`; the fuel is the number of bytes, and each round takes at least one.
  write_loop : ℕ → W → ℕ → ℕ → Bytes → W × ℕ × Option Error
  write_loop fuel w id total [] = (w, total, none)
  write_loop zero w id total (b ∷ bs) = (w, total, none)
  write_loop (suc fuel) w id total (b ∷ bs) =
      let chunk = chunk_of (b ∷ bs) in
      let (w', e) = write_frame w (data_frame id chunk) in
      elim e [
        | some x ↦ (w', total, some x)
        | none ↦ write_loop fuel w' id (total + length chunk) (drop (length chunk) (b ∷ bs))
      ]

  -- `Write`: the number of bytes written and the error.
  unfoldable pub write : W → Stream → Bytes → W × ℕ × Option Error
  unfolding write_loop
  write w s p = if s.closed then (w, 0, some stream_closed) else write_loop (length p) w s.id 0 p

  unfoldable pub close : W → Stream → W × Stream × Option Error
  unfolding deliver_err
  close w s =
      if s.closed
      then (w, s, none)
      else let (w', e) = write_frame w (control_frame type_stream_close s.id) in
        (w', deliver_err eof (record s { closed = true }), e)
