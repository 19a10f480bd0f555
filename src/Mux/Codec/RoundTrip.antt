-- ===== src/Mux/Codec/RoundTrip.antt =====
-- internal/mux/codec.go: the codec reads back what it wrote, and reads nothing else.
use ghost_vpn.Base.{
  ℕ, suc, ◌<◌, ◌≡◌, [], ◌∷◌, ◌++◌, Bytes, IsByte, AreBytes, length, uint16, take, arith,
  length-append, take-length_append, drop-length_append, take-append-drop, ◌==◌, ltb, if◌then◌else◌,
  length-take, All-take, ◌+◌, get_or, length-drop, drop, uint16, take, ◌≤◌, refl,
}
use ghost_vpn.Io.{Error, ok, err, Reader, payload_read, cut_short}
use ghost_vpn.Mux.Frame.{Frame, IsWire}
use ghost_vpn.Mux.Codec.{encode, read_frame}

-- Whatever follows an encoded frame, `ReadFrame` returns that frame and leaves what follows.
pub read_frame-encode :
    {f : Frame} (rest : Bytes) (e : Error)
    → IsWire f
    → read_frame (record { pending = encode f ++ rest; last = e })
      ≡ (record { pending = rest; last = e }, ok f)
unfolding read_frame encode
read_frame-encode {f} rest e v = ground (
  arith,
  length-append f.payload rest,
  take-length_append f.payload rest,
  drop-length_append f.payload rest,
)

-- What `ReadFrame` has read when it returns a frame.
record Decoded (p : Bytes) (e : Error) (r : Reader) (f : Frame) : Type 0 where
  pub consumed : p ≡ encode f ++ r.pending
  pub last_kept : r.last ≡ e
  pub wire : IsWire f

read_frame-header :
    (a b c d e f g h : ℕ) (rest : Bytes) (l : Error) {r : Reader} {fr : Frame}
    → AreBytes (a ∷ b ∷ c ∷ d ∷ e ∷ f ∷ g ∷ h ∷ rest)
    → read_frame (record { pending = a ∷ b ∷ c ∷ d ∷ e ∷ f ∷ g ∷ h ∷ rest; last = l }) ≡ (r, ok fr)
    → Decoded (a ∷ b ∷ c ∷ d ∷ e ∷ f ∷ g ∷ h ∷ rest) l r fr
unfolding read_frame encode
read_frame-header a b c d e f g h rest l bs q = ground (
  arith,
  length-take (uint16 g h) rest,
  take-append-drop (uint16 g h) rest,
  All-take IsByte (uint16 g h) rest,
  bs,
)

-- Conversely, from a stream of bytes `ReadFrame` returns only a frame that the wire allows, and
-- the bytes it consumed are exactly the encoding of that frame.
pub read_frame_sound :
    (p : Bytes) (l : Error) {r : Reader} {f : Frame}
    → AreBytes p
    → read_frame (record { pending = p; last = l }) ≡ (r, ok f)
    → (p ≡ encode f ++ r.pending) × (r.last ≡ l) × IsWire f
unfolding read_frame
read_frame_sound (a ∷ b ∷ c ∷ d ∷ e ∷ f ∷ g ∷ h ∷ rest) l bs q =
    let v = read_frame-header a b c d e f g h rest l bs q in (v.consumed, v.last_kept, v.wire)
read_frame_sound _ l bs q = absurd (ground arith)

-- The error of a stream that ends after `k` bytes of a frame.
pub truncation : ℕ → Error → Error
truncation k e =
    if k == 0
    then e
    else if ltb k 8
    then cut_short e
    else payload_read (if k == 8 then e else cut_short e)

-- A stream that ends inside a frame yields no frame: `ReadFrame` consumes what there is and
-- returns the reader's own error at a boundary (io.EOF, or after the header wrapped as a payload
-- error), and io.ErrUnexpectedEOF for io.EOF within the header or, wrapped, within the payload.
pub read_frame_truncated :
    {f : Frame} (k : ℕ) (e : Error)
    → IsWire f
    → k < length (encode f)
    → read_frame (record { pending = take k (encode f); last = e })
      ≡ (record { pending = []; last = e }, err (truncation k e))
unfolding read_frame encode truncation
read_frame_truncated {f} (suc (suc (suc (suc (suc (suc (suc (suc k)))))))) e v h =
    ground (arith, length-take k f.payload)
read_frame_truncated _ e v h = ground arith

-- A frame that is read takes its header at least from the stream.
pub read_frame_shrinks :
    (r : Reader) {r' : Reader} {f : Frame}
    → read_frame r ≡ (r', ok f)
    → length r'.pending + 8 ≤ length r.pending
unfolding read_frame
read_frame_shrinks r q =
    let header = take 8 r.pending in
    ground (
      arith,
      length-drop 8 r.pending,
      length-drop (uint16 (get_or header 6 0) (get_or header 7 0)) (drop 8 r.pending),
    )

pub read_frame-nil :
    (e : Error)
    → read_frame (record { pending = []; last = e }) ≡ (record { pending = []; last = e }, err e)
unfolding read_frame
read_frame-nil e = refl
