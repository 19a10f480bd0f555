-- ===== src/Crypto/Cipher/Limit.antt =====
-- internal/crypto/frame_cipher.go below internal/shaper/coalesce.go, as the commands stack them: the
-- cipher refuses a batch that is larger than it seals.
use ghost_vpn.Base.{ℕ, ◌+◌, ◌≤◌, ◌<◌, ◌≡◌, false, some, [], Bytes, length, arith, length-append}
use ghost_vpn.Io.{Writer, write_too_large}
use ghost_vpn.Auth.Session.{CipherState}
use ghost_vpn.Shaper.Coalesce
use ghost_vpn.Shaper.Coalesce.{CoalescingConn, target_size, flush_locked, flush_to, send}
use ghost_vpn.Crypto.Cipher.{FrameCipher, max_sealed_payload, write, cipher_writer}

module _ {K W : Type 0} ⦃cs : CipherState K⦄ ⦃wr : Writer W⦄ where
  -- A write that makes the batch larger than the cipher seals fails, as the mux frame of a long
  -- message does. Nothing is sent, and the batch is emptied: the frames that were written without an
  -- error before it, of any stream, are lost with it.
  pub large_write_loses_batch :
      (intn : ℕ → ℕ) (c : CoalescingConn (FrameCipher K W)) (p : Bytes)
      → c.closed ≡ false
      → c.cfg.flush_bytes ≤ max_sealed_payload
      → target_size c.cfg intn ≤ max_sealed_payload
      → max_sealed_payload < length c.buf + length p
      → ((Coalesce.write intn c p).2 ≡ some (write_too_large (length c.buf + length p)))
        × ((Coalesce.write intn c p).0.buf ≡ [])
        × ((Coalesce.write intn c p).0.inner ≡ c.inner)
  unfolding Coalesce.write flush_locked flush_to send write cipher_writer
  large_write_loses_batch intn c p live small aim large = ground (arith, length-append c.buf p)
