-- ===== src/Shaper/Tests.antt =====
-- Runs of the coalescer over a writer that keeps what is written.
use ghost_vpn.Base.{ℕ, ◌≡◌, refl, true, false, none, some, [], ◌∷◌, Bytes, length, arith}
use ghost_vpn.Io.Buffer.{buffer, buffer_laws}
use ghost_vpn.Io.{pos, negsuc, eof}
use ghost_vpn.Mux.Frame.{Frame, IsWire}
use ghost_vpn.Mux.Codec.{encode}
use ghost_vpn.Mux.Stream.{data_frame}
use ghost_vpn.Mux.Conn.{Conn, new_conn, close, read_loop}
use ghost_vpn.Mux.Conn.Loop.{dispatch_all}
use ghost_vpn.Shaper.Coalesce.{
  CoalesceConfig, Settings, CoalescingConn, new_coalescing_conn, defaults, target_size,
  padding_frame, flush_to, send, write, flush_locked, timer_flush,
}
use ghost_vpn.Shaper.Burst.{BurstController}
use ghost_vpn.Shaper.Coalesce.Transparent.{Run, start, writes, timer, peer_sees_written}

-- Small sizes: a flush aims at 20 bytes.
abbrev small : CoalesceConfig
small = record {
  flush_interval = pos 0;
  flush_bytes = pos 64;
  min_padded_size = pos 20;
  max_padded_size = pos 20;
  cover_interval = negsuc 0;
}

abbrev zero_draw : ℕ → ℕ
zero_draw n = 0

abbrev settings : Settings
settings = record {
  flush_interval = 8;
  flush_bytes = 1300;
  min_padded = 1100;
  max_padded = 1450;
  cover = none;
}

-- Three bytes wait for a flush.
abbrev batch : CoalescingConn Bytes
batch = record {
  inner = [];
  cfg = settings;
  buf = 1 ∷ 2 ∷ 3 ∷ [];
  timer = true;
  closed = false;
  total_flushes = 0;
  total_padding = 0;
  total_bytes = 0;
}

abbrev hello_frame : Frame
hello_frame = data_frame 1 (104 ∷ 105 ∷ [])

hello-IsWire : IsWire hello_frame
hello-IsWire = record {
  version_is = refl;
  type_byte = omega arith;
  id_word = omega arith;
  payload_fits = omega arith;
  payload_bytes = (omega arith, (omega arith, tt));
}

-- The greeting is written, and the timer flushes it.
abbrev idle : CoalescingConn Bytes
idle = record {
  inner = [];
  cfg = defaults small;
  buf = [];
  timer = false;
  closed = false;
  total_flushes = 0;
  total_padding = 0;
  total_bytes = 0;
}

abbrev flushed : CoalescingConn Bytes
flushed = timer_flush zero_draw (write zero_draw idle (encode hello_frame)).0

one_write : Run [] small flushed (hello_frame ∷ [])
unfolding new_coalescing_conn write flush_locked flush_to send defaults buffer encode target_size
one_write =
    timer zero_draw (writes zero_draw hello_frame start hello-IsWire (omega arith) refl) refl

flushed_empties : flushed.buf ≡ []
unfolding timer_flush write flush_locked flush_to send defaults buffer encode target_size
flushed_empties = refl

sent_size : length flushed.inner ≡ 20
unfolding timer_flush write flush_locked flush_to send defaults buffer encode target_size
    padding_frame
sent_size = refl

abbrev peer : Conn Bytes
peer = new_conn (record { pending = []; last = eof }) [] false true 0

peer_sees_written_example :
    read_loop 21 (λ _. 7) 0 (record peer { dec = record { pending = flushed.inner; last = eof } })
    ≡ close (record (dispatch_all (λ _. 7) 0 (hello_frame ∷ []) peer) {
      dec = record { pending = []; last = eof };
      close_err = some eof;
    })
peer_sees_written_example =
    peer_sees_written buffer_laws [] small flushed (hello_frame ∷ []) 21 7 0 peer eof refl one_write
      flushed_empties (omega (arith, sent_size))

abbrev spent : BurstController
spent = record { remaining = pos 0; next_burst = pos 5 }
