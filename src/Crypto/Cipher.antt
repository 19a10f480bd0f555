-- ===== src/Crypto/Cipher.antt =====
-- internal/crypto/frame_cipher.go: every write becomes one sealed frame. The inner stream is a writer
-- and a reader.
pub mod Link
pub mod Limit
use ghost_vpn.Base.{
  ℕ, ◌+◌, ◌*◌, ◌%◌, ◌^◌, Option, none, some, [], ◌++◌, Bytes, length, take, drop, get_or,
  put_uint32, uint32, ltb, leb, ◌==◌, if◌then◌else◌,
}
use ghost_vpn.Io.{
  Error, write_too_large, sealed_too_large, zero_length_frame, write_frame_failed, read_ciphertext,
  Result, ok, err, Reader, read_full, Writer,
}
use ghost_vpn.Auth.Session.{CipherState, Session, encrypt, decrypt}

-- const MaxSealedPayload
abbrev pub max_sealed_payload : ℕ
max_sealed_payload = 60 * 1024

-- `FrameCipher`, without its mutex.
pub record FrameCipher (K W : Type 0) : Type 0 where
  pub inner : W
  pub reader : Reader
  pub session : Option (Session K)
  pub read_buf : Bytes

unfoldable pub new_cipher : {K W : Type 0} → W → Reader → Option (Session K) → FrameCipher K W
new_cipher w r s = record { inner = w; reader = r; session = s; read_buf = [] }

-- The frame of a ciphertext.
abbrev pub sealed_frame : Bytes → Bytes
sealed_frame c = put_uint32 (length c % 2 ^ 32) ++ c

module _ {K W : Type 0} ⦃cs : CipherState K⦄ ⦃wr : Writer W⦄ where
  -- What `Write` does with what `Encrypt` returned.
  write_sealed :
      FrameCipher K W → ℕ → Option (Session K) × Result Bytes → FrameCipher K W × ℕ × Option Error
  write_sealed c n (s, err e) = (record c { session = s }, 0, some e)
  write_sealed c n (s, ok text) =
      let (w, m, e) = wr.write c.inner (sealed_frame text) in
      elim e [
        | some x ↦ (record c { session = s; inner = w }, 0, some (write_frame_failed x))
        | none ↦ (record c { session = s; inner = w }, n, none)
      ]

  unfoldable pub write : FrameCipher K W → Bytes → FrameCipher K W × ℕ × Option Error
  unfolding write_sealed
  write c p =
      if length p == 0
      then (c, 0, none)
      else if ltb max_sealed_payload (length p)
      then (c, 0, some (write_too_large (length p)))
      else write_sealed c (length p) (encrypt c.session [] p)

  -- What `Read` does with what `Decrypt` returned.
  read_opened :
      FrameCipher K W
      → ℕ
      → Option (Session K) × Result Bytes
      → FrameCipher K W × Bytes × Option Error
  read_opened c k (s, err e) = (record c { session = s }, [], some e)
  read_opened c k (s, ok text) =
      (record c { session = s; read_buf = drop k text }, take k text, none)

  -- Once the length is read.
  read_body : FrameCipher K W → ℕ → ℕ → FrameCipher K W × Bytes × Option Error
  unfolding read_opened
  read_body c k n =
      if n == 0
      then (c, [], some zero_length_frame)
      else if ltb (max_sealed_payload + 64) n
      then (c, [], some (sealed_too_large n))
      else let (r, got) = read_full c.reader n in
        elim got [
          | err e ↦ (record c { reader = r }, [], some (read_ciphertext e))
          | ok text ↦ read_opened (record c { reader = r }) k (decrypt c.session [] text)
        ]

  read_header : FrameCipher K W → ℕ → FrameCipher K W × Bytes × Option Error
  unfolding read_body
  read_header c k =
      let (r, got) = read_full c.reader 4 in
      elim got [
        | err e ↦ (record c { reader = r }, [], some e)
        | ok h ↦
            read_body (record c { reader = r }) k
              (uint32 (get_or h 0 0) (get_or h 1 0) (get_or h 2 0) (get_or h 3 0))
      ]

  -- `Read` into a buffer of `k` bytes.
  unfoldable pub read : FrameCipher K W → ℕ → FrameCipher K W × Bytes × Option Error
  unfolding read_header
  read c k =
      if k == 0
      then (c, [], none)
      else if ltb 0 (length c.read_buf)
      then (record c { read_buf = drop k c.read_buf }, take k c.read_buf, none)
      else read_header c k

-- The cipher is the writer of what stands above it.
instance unfoldable pub cipher_writer :
    {K W : Type 0} → ⦃cs : CipherState K⦄ → ⦃wr : Writer W⦄ → Writer (FrameCipher K W)
cipher_writer = record { write = write }
