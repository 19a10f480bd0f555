-- ===== src/Shaper/Coalesce/Flush.antt =====
-- internal/shaper/coalesce.go: the sizes that a flush puts on the wire.
use ghost_vpn.Base.{
  ℕ, ◌+◌, ◌-◌, ◌≤◌, ◌≡◌, ◌++◌, length, replicate, arith, length-append, length-replicate,
}
use ghost_vpn.Io.{Writer}
use ghost_vpn.Mux.Frame.{Frame, type_padding, header_size, max_payload}
use ghost_vpn.Mux.Codec.{encode}
use ghost_vpn.Shaper.Coalesce.{CoalescingConn, padding_frame, flush_to, send}

abbrev pub padding : ℕ → Frame
padding n = record { version = 1; ftype = type_padding; stream_id = 0; payload = replicate n 0 }

-- The padding frame is the encoding of a PADDING frame of stream 0.
pub padding_frame-encode : (n : ℕ) → padding_frame n ≡ encode (padding n)
unfolding padding_frame encode
padding_frame-encode n = rw (length-replicate {A = ℕ} n 0)

pub length-padding_frame : (n : ℕ) → length (padding_frame n) ≡ n + 8
unfolding padding_frame
length-padding_frame n = omega (arith, length-replicate {A = ℕ} n 0)

module _ {W : Type 0} ⦃wr : Writer W⦄ where
  -- A flush that pads hands the inner connection one write of exactly the target size, if the
  -- padding fits a frame; the padding frame ends it.
  pub flush_padded :
      (target : ℕ) (c : CoalescingConn W)
      → length c.buf + header_size + 1 ≤ target
      → target ≤ length c.buf + header_size + max_payload
      → (flush_to target c
          ≡ send
              (c.buf ++ padding_frame (target - length c.buf - header_size))
              (target - length c.buf - header_size)
              c)
        × (length (c.buf ++ padding_frame (target - length c.buf - header_size)) ≡ target)
  unfolding flush_to
  flush_padded target c h k = (
    ground arith,
    omega (
      arith,
      length-append c.buf (padding_frame (target - length c.buf - header_size)),
      length-padding_frame (target - length c.buf - header_size),
    ),
  )
