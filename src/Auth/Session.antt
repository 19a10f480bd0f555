-- ===== src/Auth/Session.antt =====
-- internal/auth/session.go: the pair of cipher states of a tunnel. The cipher state of the noise
-- package is an interface: its operations, and the laws that they are documented to keep.
use ghost_vpn.Base.{ℕ, ◌+◌, ◌≡◌, Option, none, some, Bytes, length}
use ghost_vpn.Io.{session_not_initialized, session_encrypt, session_decrypt, Result, ok, err}

-- `noise.CipherState`: associated data, then the message. The state carries key and nonce.
pub record CipherState (K : Type 0) : Type 0 where
  pub seal : K → Bytes → Bytes → K × Result Bytes
  pub unseal : K → Bytes → Bytes → K × Result Bytes
  pub nonce : K → ℕ

-- `Paired k j`: state `j` opens, in order, what state `k` seals from now on. Sealing adds the tag
-- of ChaCha20-Poly1305.
pub record CipherLaws {K : Type 0} (cs : CipherState K) (Paired : K → K → Type 0) : Type 0 where
  pub opens :
      (k j : K) (ad p c : Bytes) (k' : K)
      → Paired k j
      → cs.seal k ad p ≡ (k', ok c)
      → (j' : K) × (cs.unseal j ad c ≡ (j', ok p)) × Paired k' j'
  pub expands :
      (k : K) (ad p c : Bytes) (k' : K) → cs.seal k ad p ≡ (k', ok c) → length c ≡ length p + 16

-- `Session`; a nil pointer is none.
pub record Session (K : Type 0) : Type 0 where
  pub send : Option K
  pub recv : Option K

unfoldable pub new_session : {K : Type 0} → Option K → Option K → Option (Session K)
new_session send recv = some (record { send = send; recv = recv })

abbrev sealed_result : Result Bytes → Result Bytes
sealed_result (ok c) = ok c
sealed_result (err e) = err (session_encrypt e)

abbrev opened_result : Result Bytes → Result Bytes
opened_result (ok p) = ok p
opened_result (err e) = err (session_decrypt e)

module _ {K : Type 0} ⦃cs : CipherState K⦄ where
  -- `Encrypt`
  unfoldable pub encrypt : Option (Session K) → Bytes → Bytes → Option (Session K) × Result Bytes
  encrypt none ad p = (none, err session_not_initialized)
  encrypt (some s) ad p = elim s.send [
    | none ↦ (some s, err session_not_initialized)
    | some k ↦
        let (k', got) = cs.seal k ad p in (some (record s { send = some k' }), sealed_result got)
  ]

  -- `Decrypt`
  unfoldable pub decrypt : Option (Session K) → Bytes → Bytes → Option (Session K) × Result Bytes
  decrypt none ad c = (none, err session_not_initialized)
  decrypt (some s) ad c = elim s.recv [
    | none ↦ (some s, err session_not_initialized)
    | some j ↦
        let (j', got) = cs.unseal j ad c in (some (record s { recv = some j' }), opened_result got)
  ]

  abbrev nonce_of : Option K → ℕ
  nonce_of none = 0
  nonce_of (some k) = cs.nonce k

  -- `SendNonce` and `RecvNonce`
  pub send_nonce : Option (Session K) → ℕ
  send_nonce none = 0
  send_nonce (some s) = nonce_of s.send

  pub recv_nonce : Option (Session K) → ℕ
  recv_nonce none = 0
  recv_nonce (some s) = nonce_of s.recv
