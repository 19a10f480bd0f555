-- ===== src/Crypto/Handshake.antt =====
-- internal/auth/noise.go with internal/crypto/frame_cipher.go: the handshake, then both directions of
-- the tunnel that is made from its sessions.
pub mod Plain
mod Tests
use ghost_vpn.Base.{
  ◌≡◌, ◌≤◌, refl, ◌∙◌, sym, ap, true, false, Option, some, none, [], Bytes, arith, inl, inr, subst,
}
use ghost_vpn.Io.{Error, Reader, Result, ok, err, msg1_write}
use ghost_vpn.Auth.Keys.{DhKey}
use ghost_vpn.Auth.Session.{CipherState, Session, new_session}
use ghost_vpn.Auth.Noise.{
  HandshakeConfig, HandshakeState, Message, NoiseLaws, handshake_prologue, failing, both, bytes_of,
  finish_initiator, finish_responder, new_initiator, new_responder, write_msg1, read_msg1,
  write_msg2, read_msg2, peer_static, responder_done,
}
use ghost_vpn.Crypto.Cipher.{FrameCipher, new_cipher}
use ghost_vpn.Crypto.Cipher.Link.{Linked}

bytes_of-ok :
    {H K : Type 0} (wrap : Error → Error) (p : H × Result (Message K)) (h : H) (b : Bytes)
    → bytes_of wrap p ≡ (h, ok b)
    → (m : Message K) × (p ≡ (h, ok m)) × (m.content ≡ b)
bytes_of-ok wrap (h', ok m) h b q = (m, ground arith, ground arith)
bytes_of-ok wrap (h', err e) h b q = absurd (ground arith)

-- What the responder had from the handshake when it has a session.
finish_responder-ok :
    {H K : Type 0} (r r' : H) (m : Message K) (first second : Option K) (msg : Bytes)
    (session : Option (Session K))
    → finish_responder r m (both first second) ≡ (r', ok (msg, session))
    → (s : K) × (t : K) × (r ≡ r')
      × (m.content ≡ msg)
      × (first ≡ some s)
      × (second ≡ some t)
      × (session ≡ new_session (some t) (some s))
finish_responder-ok r r' m none second msg session q = absurd (ground arith)
finish_responder-ok r r' m (some s) none msg session q = absurd (ground arith)
finish_responder-ok r r' m (some s) (some t) msg session q =
    (s, t, ground arith, ground arith, refl, refl, ground arith)

responder_done-ok :
    {H K : Type 0} (p : H × Result (Message K)) (r' : H) (msg : Bytes)
    (session : Option (Session K))
    → responder_done p ≡ (r', ok (msg, session))
    → (m : Message K) × (s : K) × (t : K) × (p ≡ (r', ok m))
      × (m.content ≡ msg)
      × (m.first ≡ some s)
      × (m.second ≡ some t)
      × (session ≡ new_session (some t) (some s))
responder_done-ok (r, err e) r' msg session q = absurd (ground arith)
responder_done-ok (r, ok m) r' msg session q =
    let (s, t, same, content, first, second, made) =
      finish_responder-ok r r' m m.first m.second msg session q in
    (m, s, t, ground arith, content, first, second, made)

abbrev initiator_config : DhKey → Bytes → HandshakeConfig
initiator_config local remote = record {
  initiator = true;
  prologue = handshake_prologue;
  static_keypair = local;
  peer_static = remote;
}

abbrev responder_config : DhKey → HandshakeConfig
responder_config local = record {
  initiator = false;
  prologue = handshake_prologue;
  static_keypair = local;
  peer_static = [];
}

module _ {H K : Type 0} (hs : HandshakeState H K) where
  new_initiator-new_state :
      (local : DhKey) (remote : Bytes) (i : H)
      → new_initiator hs local remote ≡ ok i
      → hs.new_state (initiator_config local remote) ≡ ok i
  unfolding new_initiator
  new_initiator-new_state local remote i h = ground arith

  new_responder-new_state :
      (local : DhKey) (r : H)
      → new_responder hs local ≡ ok r
      → hs.new_state (responder_config local) ≡ ok r
  unfolding new_responder
  new_responder-new_state local r h = ground arith

  write_msg1-done :
      (i i' : H) (payload msg : Bytes)
      → write_msg1 hs i payload ≡ (i', ok msg)
      → bytes_of msg1_write (hs.write i payload) ≡ (i', ok msg)
  unfolding write_msg1
  write_msg1-done i i' payload msg h = h

  write_msg2-done :
      (r r' : H) (payload msg : Bytes) (session : Option (Session K))
      → write_msg2 hs r payload ≡ (r', ok (msg, session))
      → responder_done (hs.write r payload) ≡ (r', ok (msg, session))
  unfolding write_msg2
  write_msg2-done r r' payload msg session h = h

-- Two ciphers over sessions whose states are paired, before any byte has moved, are the ends of a
-- tunnel.
paired-Linked :
    {K W V : Type 0} ⦃cs : CipherState K⦄ {Paired : K → K → Type 0} (w : W) (v : V) (e e' : Error)
    (k j : K) (other other' : Option K)
    → Paired k j
    → Linked Paired
        (new_cipher w (record { pending = []; last = e }) (new_session (some k) other))
        (new_cipher v (record { pending = []; last = e' }) (new_session other' (some j)))
        []
unfolding new_session new_cipher
paired-Linked w v e e' k j other other' paired = record {
  sender = record { send = some k; recv = other };
  receiver = record { send = other'; recv = some j };
  sends = refl;
  receives = refl;
  k = k;
  j = j;
  send_key = refl;
  recv_key = refl;
  messages = [];
  carried = (refl, paired);
  unread_is = refl;
}

module _ {H K : Type 0} {hs : HandshakeState H K} {IsPair : DhKey → Type 0}
    {Waiting : H → H → Type 0} {Paired : K → K → Type 0}
    (laws : NoiseLaws hs IsPair Waiting Paired) where
  msg1_understood :
      (client server : DhKey) (i i' r r' : H) (payload msg : Bytes) (heard : Result Bytes)
      → IsPair client
      → IsPair server
      → new_initiator hs client server.public ≡ ok i
      → new_responder hs server ≡ ok r
      → write_msg1 hs i payload ≡ (i', ok msg)
      → read_msg1 hs r msg ≡ (r', heard)
      → (heard ≡ ok payload) × (peer_static hs r' ≡ client.public) × Waiting i' r'
  unfolding read_msg1 peer_static
  msg1_understood client server i i' r r' payload msg heard cp sp hi hr hw hread =
      let (m, wrote, content) =
        bytes_of-ok msg1_write (hs.write i payload) i' msg
          (write_msg1-done hs i i' payload msg hw) in
      let (r1, m', reads, same, peer, waiting) =
        laws.reads_first (initiator_config client server.public) (responder_config server) i r i'
          payload m cp sp refl refl refl refl (new_initiator-new_state hs client server.public i hi)
          (new_responder-new_state hs server r hr) wrote in
      let read_is : hs.read r msg ≡ (r1, ok m') = ap (hs.read r) (sym content) ∙ reads in
      let now : r1 ≡ r' = ground (arith, read_is) in
      (ground (arith, read_is, same), ap hs.peer (sym now) ∙ peer, subst (Waiting i') now waiting)

  msg2_understood :
      (i r r' : H) (payload msg : Bytes) (theirs : Option (Session K))
      → Waiting i r
      → write_msg2 hs r payload ≡ (r', ok (msg, theirs))
      → (i' : H) × (s : K) × (t : K) × (s' : K) × (t' : K) × (read_msg2 hs i msg
          ≡ (i', ok (payload, new_session (some s') (some t'))))
        × (theirs ≡ new_session (some t) (some s))
        × Paired s' s
        × Paired t t'
  unfolding read_msg2
  msg2_understood i r r' payload msg theirs waiting h =
      let (m, s, t, wrote, content, first, second, made) =
        responder_done-ok (hs.write r payload) r' msg theirs
          (write_msg2-done hs r r' payload msg theirs h) in
      let (i', m', s', t', reads, same, first', second', pair_s, pair_t) =
        laws.reads_second i r r' payload m s t waiting wrote first second in
      let read_is : hs.read i msg ≡ (i', ok m') = ap (hs.read i) (sym content) ∙ reads in
      (i', s, t, s', t', ground (arith, read_is, same, first', second'), made, pair_s, pair_t)

  -- An initiator that has the responder's public key and a responder whose key it is, both with key
  -- pairs of the curve: the responder reads the payload of the first message and learns the
  -- initiator's public key; if it answers with a session, the initiator reads the answer's payload
  -- and has a session as well; and ciphers over the two sessions, on an empty connection, are
  -- linked in both directions.
  pub handshake_links :
      {W V : Type 0} ⦃cs : CipherState K⦄ (client server : DhKey) (i i' r r' r'' : H)
      (p1 p2 msg1 msg2 : Bytes) (heard : Result Bytes) (theirs : Option (Session K)) (w : W) (v : V)
      (e e' : Error)
      → IsPair client
      → IsPair server
      → new_initiator hs client server.public ≡ ok i
      → new_responder hs server ≡ ok r
      → write_msg1 hs i p1 ≡ (i', ok msg1)
      → read_msg1 hs r msg1 ≡ (r', heard)
      → write_msg2 hs r' p2 ≡ (r'', ok (msg2, theirs))
      → (heard ≡ ok p1)
        × (peer_static hs r' ≡ client.public)
        × (i'' : H) × (ours : Option (Session K)) × (read_msg2 hs i' msg2 ≡ (i'', ok (p2, ours)))
        × Linked Paired
            (new_cipher w (record { pending = []; last = e }) ours)
            (new_cipher v (record { pending = []; last = e' }) theirs)
            []
        × Linked Paired
            (new_cipher v (record { pending = []; last = e' }) theirs)
            (new_cipher w (record { pending = []; last = e }) ours)
            []
  unfolding new_session
  handshake_links client server i i' r r' r'' p1 p2 msg1 msg2 heard theirs w v e e' cp sp hi hr hw
        hread hw2 =
      let (same, peer, waiting) =
        msg1_understood client server i i' r r' p1 msg1 heard cp sp hi hr hw hread in
      let (i'', s, t, s', t', reads, made, pair_s, pair_t) =
        msg2_understood i' r' r'' p2 msg2 theirs waiting hw2 in
      (
        same,
        peer,
        i'',
        new_session (some s') (some t'),
        reads,
        subst
            (λ (x : Option (Session K)).
              Linked Paired
                (new_cipher w (record { pending = []; last = e }) (new_session (some s') (some t')))
                (new_cipher v (record { pending = []; last = e' }) x) [])
            (sym made) (paired-Linked w v e e' s' s (some t') (some t) pair_s),
        subst
            (λ (x : Option (Session K)).
              Linked Paired (new_cipher v (record { pending = []; last = e' }) x)
                (new_cipher w (record { pending = []; last = e }) (new_session (some s') (some t')))
                [])
            (sym made) (paired-Linked v w e' e t t' (some s) (some s') pair_t),
      )
