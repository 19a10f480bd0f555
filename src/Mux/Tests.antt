-- ===== src/Mux/Tests.antt =====
-- Runs of the codec and of both ends of a connection over a writer that keeps what is written.
use ghost_vpn.Base.{
  ℕ, ◌+◌, ◌^◌, ◌≡◌, ◌≢◌, refl, true, false, none, some, List, [], ◌∷◌, ◌++◌, Bytes, AreBytes,
  replicate, concat, arith, inr, get_elem?, replicate, ◌*◌,
}
use ghost_vpn.Io.Buffer.{buffer, all_sent, buffer_laws}
use ghost_vpn.Io.{Error, eof, Result, ok, ping_timeout}
use ghost_vpn.Mux.Frame.{Frame, IsWire, type_pong, type_stream_open}
use ghost_vpn.Mux.Codec.{encode, read_frame, write_frame}
use ghost_vpn.Mux.Codec.RoundTrip.{read_frame-encode, read_frame_sound}
use ghost_vpn.Mux.Stream.{Stream, new_stream, data_frame, control_frame, read, write, chunk_of}
use ghost_vpn.Mux.Stream.Reading
use ghost_vpn.Mux.Stream.Reading.{seen, unread, read_messages, read_refines, read_returns}
use ghost_vpn.Mux.Stream.Reading.History.{
  Event, data_arrives, error_arrives, reads, run, run_conserves,
}
use ghost_vpn.Mux.Stream.Writing.{Wrote, write-Wrote}
use ghost_vpn.Mux.Conn.{Conn, new_conn, close, dispatch, read_loop}
use ghost_vpn.Mux.Conn.Ping.{ping_check, ping_store}
use ghost_vpn.Mux.Conn.Valid.{IsValid}
use ghost_vpn.Mux.Conn.Steps.{here, next, receive, closing, Reach-IsValid}
use ghost_vpn.Mux.Conn.Loop.{encode_all, dispatch_all, read_loop-encode_all, read_loop_ends}
use ghost_vpn.Mux.Conn.Delivery.{Kept, write_reaches_reader}
use ghost_vpn.Mux.Conn.Shutdown.{Ended, close_ends_readers, reopen_orphans}
use ghost_vpn.Mux.Conn.Ping.{pong_before_store}

abbrev hello : Bytes
hello = 104 ∷ 105 ∷ []

abbrev hello_frame : Frame
hello_frame = data_frame 1 hello

hello-IsWire : IsWire hello_frame
hello-IsWire = record {
  version_is = refl;
  type_byte = omega arith;
  id_word = omega arith;
  payload_fits = omega arith;
  payload_bytes = (omega arith, (omega arith, tt));
}

abbrev hello_bytes : Bytes
hello_bytes = 1 ∷ 0 ∷ 0 ∷ 0 ∷ 0 ∷ 1 ∷ 0 ∷ 2 ∷ 104 ∷ 105 ∷ []

encode-hello : encode hello_frame ≡ hello_bytes
unfolding encode
encode-hello = refl

read_frame-encode_example :
    read_frame (record { pending = encode hello_frame ++ 9 ∷ []; last = eof })
    ≡ (record { pending = 9 ∷ []; last = eof }, ok hello_frame)
read_frame-encode_example = read_frame-encode {f = hello_frame} (9 ∷ []) eof hello-IsWire

hello_bytes-AreBytes : AreBytes hello_bytes
hello_bytes-AreBytes = ground arith

read_frame_sound_example :
    (hello_bytes ≡ encode hello_frame ++ []) × (eof ≡ eof) × IsWire hello_frame
unfolding read_frame
read_frame_sound_example =
    read_frame_sound hello_bytes eof {r = record { pending = []; last = eof }} {f = hello_frame}
      hello_bytes-AreBytes refl

-- A stream with one byte of its first message read.
abbrev half_read : Stream
half_read = record {
  id = 1;
  read_msgs = hello ∷ (7 ∷ []) ∷ [];
  read_off = 1;
  read_err = none;
  closed = false;
}

half_read-IsValid : Reading.IsValid half_read
half_read-IsValid = inr (omega arith)

read_refines_example : seen (read half_read 5) ≡ read_messages 5 (unread half_read) none
read_refines_example = read_refines half_read 5 half_read-IsValid

abbrev arrivals : List Event
arrivals = reads 1 ∷ data_arrives hello ∷ reads 9 ∷ error_arrives eof ∷ data_arrives hello ∷ []

run_conserves_example :
    let (s, out) = run arrivals half_read (104 ∷ []) in
    out ++ concat (unread s) ≡ 104 ∷ 105 ∷ 7 ∷ 104 ∷ 105 ∷ []
run_conserves_example = run_conserves arrivals half_read (104 ∷ []) half_read-IsValid

write-Wrote_example :
    let (w, n, e) = write {W = Bytes} (9 ∷ []) (new_stream 1) hello in
    Wrote all_sent 1 (9 ∷ []) hello w n e
write-Wrote_example = write-Wrote buffer_laws (9 ∷ []) (new_stream 1) hello refl

-- A server on which stream 1 is open, with the greeting still to be read.
abbrev server_stream : Stream
server_stream = record { id = 1; read_msgs = []; read_off = 0; read_err = none; closed = false }

abbrev server : Conn Bytes
server = record {
  enc = [];
  dec = record { pending = hello_bytes; last = eof };
  is_client = false;
  next_id = 2;
  store = server_stream ∷ [];
  streams = (1, 0) ∷ [];
  has_callback = true;
  accepted = 0 ∷ [];
  done = false;
  close_err = none;
  last_pong = 0;
  ping_sent = 0;
}

abbrev still : ℕ → ℕ
still n = 0

write_reaches_reader_example : Kept (read_loop 20 still 0 server).store 0 hello
unfolding write encode buffer write_frame chunk_of
write_reaches_reader_example =
    write_reaches_reader buffer_laws [] server_stream hello 20 still 0 0 server server_stream refl
      (omega arith) (omega arith, (omega arith, tt)) refl refl refl refl refl refl (omega arith)

Reach-IsValid_example : IsValid (
    close (
      dispatch 5
        (control_frame type_stream_open 1)
        (new_conn {W = Bytes} (record { pending = []; last = eof }) [] false true 0)))
Reach-IsValid_example =
    Reach-IsValid (record { pending = []; last = eof }) [] false true 0
      (next (next here (receive 5 (control_frame type_stream_open 1))) closing)

read_loop-encode_all_example :
    read_loop 2 still 0
      (record server { dec = record { pending = encode_all (hello_frame ∷ []); last = eof } })
    ≡ close (record (dispatch_all still 0 (hello_frame ∷ []) server) {
      dec = record { pending = []; last = eof };
      close_err = some eof;
    })
read_loop-encode_all_example =
    read_loop-encode_all (hello_frame ∷ []) 2 still 0 server eof (hello-IsWire, tt) (omega arith)

read_loop_ends_example :
    ((read_loop 11 still 0 server).done ≡ true)
    × ((e : Error) × ((read_loop 11 still 0 server).close_err ≡ some e))
read_loop_ends_example = read_loop_ends 11 still 0 server (omega arith)

abbrev accepting : Conn Bytes
accepting = record server { store = []; streams = []; accepted = [] }

accepting-IsValid : IsValid accepting
unfolding new_conn
accepting-IsValid =
    Reach-IsValid (record { pending = hello_bytes; last = eof }) [] false true 0 here

close_ends_readers_example : (o : Ended (close server).store 0 []) × (read o.stream 4 ≢ none)
close_ends_readers_example = close_ends_readers server 1 0 4 server_stream refl refl refl

reopen_orphans_example :
    (t : Stream) × (get_elem? (close (dispatch 0 (control_frame type_stream_open 1) server)).store 0
      ≡ some t)
    × (read t 4 ≡ none)
unfolding read
reopen_orphans_example =
    reopen_orphans 0 (control_frame type_stream_open 1) server 0 4 refl refl tt refl refl

-- A connection that waits for the answer to the ping of second 40.
abbrev waiting : Conn Bytes
waiting = record server { last_pong = 30; ping_sent = 40 }

abbrev pong : Frame
pong = control_frame type_pong 0

no_random : ℕ → Result Bytes
no_random n = ok (replicate n 0)

-- The connection when the PONG was handled and the ping recorded.
abbrev answered_early : Conn Bytes
answered_early = ping_store (41 * 10 ^ 9) (dispatch (40 * 10 ^ 9 + 999999999) pong waiting)

pong_before_store_example :
    ping_check (71 * 10 ^ 9) answered_early
    ≡ (close (record answered_early { close_err = some ping_timeout }), true)
pong_before_store_example =
    pong_before_store (40 * 10 ^ 9 + 999999999) (41 * 10 ^ 9) (71 * 10 ^ 9) pong waiting refl
      (omega arith) (omega arith)
