-- ===== src/Mux/Codec/Sending.antt =====
-- internal/mux/codec.go: `WriteFrame` over a writer that keeps the contract of io.Writer.
use ghost_vpn.Base.{◌≤◌, ◌<◌, ◌≡◌, none, some, ◌++◌, Bytes, length, arith}
use ghost_vpn.Io.{Writer, WriterLaws, payload_too_large}
use ghost_vpn.Mux.Frame.{Frame, max_payload}
use ghost_vpn.Mux.Codec.{encode, write_frame}

-- A frame that is written without an error fits, and its encoding is what was sent.
pub write_frame_sent :
    {W : Type 0} ⦃wr : Writer W⦄ {sent : W → Bytes} (laws : WriterLaws wr sent) (w : W) (f : Frame)
    → (write_frame w f).1 ≡ none
    → (length f.payload ≤ max_payload) × (sent (write_frame w f).0 ≡ sent w ++ encode f)
unfolding write_frame
write_frame_sent laws w f h = ground (arith, laws.writes_all w (encode f))

-- A payload that does not fit is refused, and nothing is written.
pub write_frame_too_large :
    {W : Type 0} ⦃wr : Writer W⦄ (w : W) (f : Frame)
    → max_payload < length f.payload
    → write_frame w f ≡ (w, some (payload_too_large (length f.payload)))
unfolding write_frame
write_frame_too_large w f h = ground arith
