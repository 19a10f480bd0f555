-- ===== src/Mux/Frame.antt =====
-- internal/mux/frame.go: the frame of the multiplexer and its constants.
use ghost_vpn.Base.{ℕ, ◌^◌, ◌≤◌, ◌<◌, ◌≡◌, Bytes, AreBytes, length}

-- const HeaderSize, MaxPayload, DefaultWindow, ProtocolVersion
abbrev pub header_size : ℕ
header_size = 8

abbrev pub max_payload : ℕ
max_payload = 65535

abbrev pub default_window : ℕ
default_window = 65536

abbrev pub protocol_version : ℕ
protocol_version = 1

-- `FrameType` is a byte: values that no constant names occur on the wire.
abbrev pub FrameType : Type 0
FrameType = ℕ

abbrev pub type_data : FrameType
type_data = 0

abbrev pub type_window_update : FrameType
type_window_update = 1

abbrev pub type_stream_open : FrameType
type_stream_open = 2

abbrev pub type_stream_close : FrameType
type_stream_close = 3

abbrev pub type_ping : FrameType
type_ping = 4

abbrev pub type_padding : FrameType
type_padding = 5

abbrev pub type_migrate : FrameType
type_migrate = 6

abbrev pub type_pong : FrameType
type_pong = 7

pub record Frame : Type 0 where
  pub version : ℕ
  pub ftype : FrameType
  pub stream_id : ℕ
  pub payload : Bytes

-- The values that the Go types allow, with the protocol's version and a payload that fits.
pub record IsWire (f : Frame) : Type 0 where
  pub version_is : f.version ≡ protocol_version
  pub type_byte : f.ftype < 256
  pub id_word : f.stream_id < 2 ^ 32
  pub payload_fits : length f.payload ≤ max_payload
  pub payload_bytes : AreBytes f.payload
