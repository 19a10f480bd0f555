-- ===== src/Auth/Noise.antt =====
-- internal/auth/noise.go: the two sides of the IK handshake. The handshake state of the noise package
-- is an interface; `NoiseLaws` is what the protocol is documented to do.
use ghost_vpn.Base.{
  ◌≡◌, Bool, true, false, Option, none, some, [], ◌∷◌, ◌&&◌, Bytes, length, ◌==◌, if◌then◌else◌,
}
use ghost_vpn.Io.{
  Error, key_length, keypair_length, handshake_incomplete, initiator_failed, responder_failed,
  msg1_write, msg1_read, msg2_write, msg2_read, Result, ok, err,
}
use ghost_vpn.Auth.Keys.{DhKey, key_size}
use ghost_vpn.Auth.Session.{Session, new_session}

-- "ghost-v1"
abbrev pub handshake_prologue : Bytes
handshake_prologue = 103 ∷ 104 ∷ 111 ∷ 115 ∷ 116 ∷ 45 ∷ 118 ∷ 49 ∷ []

-- `noise.Config`; the suite and the pattern are the same on both sides.
pub record HandshakeConfig : Type 0 where
  pub initiator : Bool
  pub prologue : Bytes
  pub static_keypair : DhKey
  pub peer_static : Bytes

-- What a message gives: its bytes or its payload, and the two cipher states once the handshake is
-- over.
pub record Message (K : Type 0) : Type 0 where
  pub content : Bytes
  pub first : Option K
  pub second : Option K

-- `noise.HandshakeState`
pub record HandshakeState (H K : Type 0) : Type 0 where
  pub new_state : HandshakeConfig → Result H
  pub write : H → Bytes → H × Result (Message K)
  pub read : H → Bytes → H × Result (Message K)
  pub peer : H → Bytes

-- `Waiting i r`: `i` has written its first message, and `r` has read it. The first cipher state is the
-- one with which the initiator encrypts, the second that of the responder.
pub record NoiseLaws {H K : Type 0} (hs : HandshakeState H K) (IsPair : DhKey → Type 0)
    (Waiting : H → H → Type 0) (Paired : K → K → Type 0) : Type 0 where
  pub reads_first :
      (ci cr : HandshakeConfig) (i r i' : H) (payload : Bytes) (m : Message K)
      → IsPair ci.static_keypair
      → IsPair cr.static_keypair
      → ci.initiator ≡ true
      → cr.initiator ≡ false
      → ci.prologue ≡ cr.prologue
      → ci.peer_static ≡ cr.static_keypair.public
      → hs.new_state ci ≡ ok i
      → hs.new_state cr ≡ ok r
      → hs.write i payload ≡ (i', ok m)
      → (r' : H) × (m' : Message K) × (hs.read r m.content ≡ (r', ok m'))
        × (m'.content ≡ payload)
        × (hs.peer r' ≡ ci.static_keypair.public)
        × Waiting i' r'
  pub reads_second :
      (i r r' : H) (payload : Bytes) (m : Message K) (s t : K)
      → Waiting i r
      → hs.write r payload ≡ (r', ok m)
      → m.first ≡ some s
      → m.second ≡ some t
      → (i' : H) × (m' : Message K) × (s' : K) × (t' : K) × (hs.read i m.content ≡ (i', ok m'))
        × (m'.content ≡ payload)
        × (m'.first ≡ some s')
        × (m'.second ≡ some t')
        × Paired s' s
        × Paired t t'

abbrev pub failing : {A : Type 0} → (Error → Error) → Result A → Result A
failing wrap (ok a) = ok a
failing wrap (err e) = err (wrap e)

-- The two cipher states, where there are two.
abbrev pub both : {K : Type 0} → Option K → Option K → Option (K × K)
both (some s) (some t) = some (s, t)
both (some s) none = none
both none t = none

abbrev pub bytes_of : {H K : Type 0} → (Error → Error) → H × Result (Message K) → H × Result Bytes
bytes_of wrap (h, ok m) = (h, ok m.content)
bytes_of wrap (h, err e) = (h, err (wrap e))

-- `Initiator.ReadMessage` after the handshake's own: the first state sends, the second receives.
abbrev pub finish_initiator :
    {H K : Type 0} → H → Message K → Option (K × K) → H × Result (Bytes × Option (Session K))
finish_initiator i m none = (i, err handshake_incomplete)
finish_initiator i m (some (s, t)) = (i, ok (m.content, new_session (some s) (some t)))

-- `Responder.WriteMessage` after the handshake's own: the second state sends, the first receives.
abbrev pub finish_responder :
    {H K : Type 0} → H → Message K → Option (K × K) → H × Result (Bytes × Option (Session K))
finish_responder r m none = (r, err handshake_incomplete)
finish_responder r m (some (s, t)) = (r, ok (m.content, new_session (some t) (some s)))

abbrev pub initiator_done :
    {H K : Type 0} → H × Result (Message K) → H × Result (Bytes × Option (Session K))
initiator_done (i, err e) = (i, err (msg2_read e))
initiator_done (i, ok m) = finish_initiator i m (both m.first m.second)

abbrev pub responder_done :
    {H K : Type 0} → H × Result (Message K) → H × Result (Bytes × Option (Session K))
responder_done (r, err e) = (r, err (msg2_write e))
responder_done (r, ok m) = finish_responder r m (both m.first m.second)

module _ {H K : Type 0} (hs : HandshakeState H K) where
  -- `NewInitiator`
  unfoldable pub new_initiator : DhKey → Bytes → Result H
  new_initiator local remote_static =
      if length remote_static == key_size
      then if (length local.private == key_size) && (length local.public == key_size)
        then failing initiator_failed (
            hs.new_state (record {
              initiator = true;
              prologue = handshake_prologue;
              static_keypair = local;
              peer_static = remote_static;
            }))
        else err keypair_length
      else err (key_length (length remote_static))

  -- `NewResponder`
  unfoldable pub new_responder : DhKey → Result H
  new_responder local =
      if (length local.private == key_size) && (length local.public == key_size)
      then failing responder_failed (
          hs.new_state (record {
            initiator = false;
            prologue = handshake_prologue;
            static_keypair = local;
            peer_static = [];
          }))
      else err keypair_length

  -- `Initiator.WriteMessage` and `Responder.ReadMessage`
  unfoldable pub write_msg1 : H → Bytes → H × Result Bytes
  write_msg1 i payload = bytes_of msg1_write (hs.write i payload)

  unfoldable pub read_msg1 : H → Bytes → H × Result Bytes
  read_msg1 r msg = bytes_of msg1_read (hs.read r msg)

  -- `Initiator.ReadMessage`
  unfoldable pub read_msg2 : H → Bytes → H × Result (Bytes × Option (Session K))
  read_msg2 i msg = initiator_done (hs.read i msg)

  -- `Responder.WriteMessage`
  unfoldable pub write_msg2 : H → Bytes → H × Result (Bytes × Option (Session K))
  write_msg2 r payload = responder_done (hs.write r payload)

  -- `Responder.PeerStatic`
  unfoldable pub peer_static : H → Bytes
  peer_static r = hs.peer r
