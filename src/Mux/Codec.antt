-- ===== src/Mux/Codec.antt =====
-- internal/mux/codec.go: `Encoder.WriteFrame` and `Decoder.ReadFrame`. The encoder's mutex makes a
-- call one atomic step.
pub mod RoundTrip
pub mod Sending
use ghost_vpn.Base.{
  ℕ, ◌%◌, ◌^◌, Bool, Option, none, some, List, [], ◌∷◌, ◌++◌, Bytes, length, get_or, put_uint32,
  put_uint16, uint32, uint16, ltb, ◌==◌, if◌then◌else◌,
}
use ghost_vpn.Io.{
  Error, payload_too_large, unsupported_version, payload_read, Result, ok, err, Reader, read_full,
  Writer,
}
use ghost_vpn.Mux.Frame.{Frame, header_size, max_payload, protocol_version}

-- The buffer that `WriteFrame` builds: header and payload.
unfoldable pub encode : Frame → Bytes
encode f =
    f.version
    ∷ f.ftype
    ∷ (put_uint32 f.stream_id ++ (put_uint16 (length f.payload % 2 ^ 16) ++ f.payload))

unfoldable pub write_frame : {W : Type 0} ⦃wr : Writer W⦄ → W → Frame → W × Option Error
write_frame ⦃wr⦄ w f =
    if ltb max_payload (length f.payload)
    then (w, some (payload_too_large (length f.payload)))
    else let (w', n, e) = wr.write w (encode f) in (w', e)

-- Once the header is read.
frame_of : Bytes → Bytes → Frame
frame_of header payload = record {
  version = get_or header 0 0;
  ftype = get_or header 1 0;
  stream_id =
      uint32 (get_or header 2 0) (get_or header 3 0) (get_or header 4 0) (get_or header 5 0);
  payload = payload;
}

read_payload : Reader → Bytes → ℕ → Reader × Result Frame
unfolding frame_of
read_payload r header n =
    if n == 0
    then (r, ok (frame_of header []))
    else let (r', got) = read_full r n in
      elim got [
        | ok payload ↦ (r', ok (frame_of header payload))
        | err e ↦ (r', err (payload_read e))
      ]

unfoldable pub read_frame : Reader → Reader × Result Frame
unfolding read_payload
read_frame r =
    let (r', got) = read_full r header_size in
    elim got [
      | err e ↦ (r', err e)
      | ok header ↦
          if get_or header 0 0 == protocol_version
          then read_payload r' header (uint16 (get_or header 6 0) (get_or header 7 0))
          else (r', err (unsupported_version (get_or header 0 0)))
    ]
