-- ===== src/Io.antt =====
-- What the program uses of Go's standard io package, and its error values.
-- A reader is the bytes that will still arrive and the error that follows them. A writer is an
-- interface (`io.Writer`): a state and its `Write`; `WriterLaws` is the documented contract.
pub mod Buffer
use ghost_vpn.Base.{
  ℕ, ◌≡◌, Option, none, [], ◌∷◌, ◌++◌, Bytes, length, take, drop, leb, if◌then◌else◌,
}

-- A Go `int` where the sign matters; `negsuc n` is -(n + 1).
pub data ℤ : Type 0 where
  pos : ℕ → ℤ
  negsuc : ℕ → ℤ

-- The error values of the program. Those built by `fmt.Errorf` with `%w` keep what they wrap.
pub data Error : Type 0 where
  -- io.EOF, io.ErrUnexpectedEOF, io.ErrClosedPipe
  eof unexpected_eof closed_pipe : Error
  -- an error of the operating system or of a package that the program calls
  foreign : ℕ → Error
  -- internal/mux
  stream_closed ping_timeout : Error
  payload_too_large : ℕ → Error
  unsupported_version : ℕ → Error
  padding_out_of_range : ℤ → Error
  payload_read open_stream ping_write : Error → Error
  -- internal/crypto
  write_too_large : ℕ → Error
  sealed_too_large : ℕ → Error
  zero_length_frame : Error
  write_frame_failed read_ciphertext : Error → Error
  -- internal/camouflage
  short_prefix zero_length_message : Error
  message_too_large : ℕ → Error
  declared_too_long : ℕ → ℕ → Error
  read_prefix read_body : Error → Error
  http_build http_request http_msg2 : Error → Error
  http_status : ℕ → Error
  -- internal/tun
  tun_open tun_iff tun_nonblock tun_command : Error → Error
  -- internal/profile
  profile_read profile_parse : Error → Error
  -- internal/transport
  no_server_addr no_listen_addr no_certificate : Error
  tcp_dial tls_handshake load_cert tcp_listen : Error → Error
  tls_version : ℕ → Error
  -- internal/auth
  session_not_initialized not_allowed : Error
  session_encrypt session_decrypt : Error → Error
  key_length : ℕ → Error
  keypair_length handshake_incomplete : Error
  key_decoding key_derivation : Error → Error
  initiator_failed responder_failed : Error → Error
  msg1_write msg1_read msg2_write msg2_read : Error → Error
  -- cmd/ghost-client
  tls_dial noise_initiator noise_msg1 tunnel_handshake noise_msg2 open_failed : Error → Error

pub data Result {ℓ} (A : Type ℓ) : Type ℓ where
  ok : A → Result A
  err : Error → Result A

pub record Reader : Type 0 where
  pub pending : Bytes
  pub last : Error

-- A stream that ends inside a buffer: `io.ReadFull` turns io.EOF into io.ErrUnexpectedEOF.
abbrev pub cut_short : Error → Error
cut_short eof = unexpected_eof
cut_short e = e

abbrev pub short_read : Bytes → Error → Error
short_read [] e = e
short_read (b ∷ bs) e = cut_short e

-- `io.ReadFull` into a buffer of `n` bytes.
abbrev pub read_full : Reader → ℕ → Reader × Result Bytes
read_full r n =
    if leb n (length r.pending)
    then (record r { pending = drop n r.pending }, ok (take n r.pending))
    else (record r { pending = [] }, err (short_read r.pending r.last))

-- `io.Writer`: the new state, the bytes written and the error.
pub record Writer (W : Type 0) : Type 0 where
  pub write : W → Bytes → W × ℕ × Option Error

-- The documented contract of `Write`, over the bytes `sent` so far: a call without an error has
-- written all of its argument.
pub record WriterLaws {W : Type 0} (wr : Writer W) (sent : W → Bytes) : Type 0 where
  pub writes_all :
      (w : W) (p : Bytes)
      → (wr.write w p).2 ≡ none
      → (sent (wr.write w p).0 ≡ sent w ++ p) × ((wr.write w p).1 ≡ length p)
