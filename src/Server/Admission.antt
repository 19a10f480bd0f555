-- ===== src/Server/Admission.antt =====
-- cmd/ghost-server/main.go with internal/camouflage: whom the server lets in.
use ghost_vpn.Base.{
  ℕ, ◌≡◌, ◌++◌, if◌then◌else◌, refl, ap, Bool, true, false, Bool-cases, inl, inr, Option, none,
  some, List, [], Bytes, AreBytes, lookup, arith, subst, if◌then◌else◌, same, ◌⊎◌, same_lem,
}
use ghost_vpn.Io.{Error, Reader, Writer, Result, ok, err, not_allowed}
use ghost_vpn.Auth.Keys.{DhKey}
use ghost_vpn.Auth.Session.{Session}
use ghost_vpn.Auth.Noise.{HandshakeState, new_responder, read_msg1, write_msg2, peer_static}
use ghost_vpn.Camouflage.Server.{AuthFunc, bridges, tunnel_method, serve_http}
use ghost_vpn.Camouflage.Server.Fallback.{bridge-Authenticated}
use ghost_vpn.Camouflage.Prefix.RoundTrip.{prefixed}
use ghost_vpn.Server.Single.{Reach, authenticating, step-IsValid, sessions-IsValid}
use ghost_vpn.Server.Valid.{IsValid}
use ghost_vpn.Server.Sessions.{
  ServerSession, Server, admit, is_allowed, on_auth, responded, heard, welcomed,
}

module _ {H K : Type 0} (hs : HandshakeState H K) (encode : Bytes → Bytes) where
  -- A handshake that was accepted: the server's responder read the message, the key in it is that of an
  -- allowed client, and the answer was written.
  pub record Accepted (keypair : DhKey) (allowed : List Bytes) (msg1 msg2 client : Bytes)
      (cipher : Option (Session K)) : Type 0 where
    pub responder : H
    pub reader : H
    pub writer : H
    pub payload : Bytes
    pub made : new_responder hs keypair ≡ ok responder
    pub reads : read_msg1 hs responder msg1 ≡ (reader, ok payload)
    pub key : encode (peer_static hs reader) ≡ client
    pub permitted : is_allowed allowed client ≡ true
    pub writes : write_msg2 hs reader [] ≡ (writer, ok (msg2, cipher))

  -- How `onAuth` ends: an error, with nothing changed, or an accepted handshake and its session.
  pub data Outcome (keypair : DhKey) (allowed : List Bytes) (msg1 : Bytes) (server : Server K)
      : Server K × Result (Bytes × ℕ) → Type 0 where
    refuses : (e : Error) → Outcome keypair allowed msg1 server (server, err e)
    accepts :
        (msg2 client : Bytes) (cipher : Option (Session K))
        → Accepted keypair allowed msg1 msg2 client cipher
        → Outcome keypair allowed msg1 server (admit client cipher server, ok (msg2, server.next))

  module _ (keypair : DhKey) (allowed : List Bytes) (msg1 : Bytes) (server : Server K) where
    decide-Outcome :
        (r reader writer : H) (payload : Bytes) (answer : Result (Bytes × Option (Session K)))
        (permitted : Bool)
        → new_responder hs keypair ≡ ok r
        → read_msg1 hs r msg1 ≡ (reader, ok payload)
        → write_msg2 hs reader [] ≡ (writer, answer)
        → is_allowed allowed (encode (peer_static hs reader)) ≡ permitted
        → Outcome keypair allowed msg1 server (
            if permitted
            then welcomed hs encode (encode (peer_static hs reader)) server answer
            else (server, err not_allowed))
    decide-Outcome r reader writer payload answer false made reads writes p = refuses not_allowed
    decide-Outcome r reader writer payload (err e) true made reads writes p = refuses e
    decide-Outcome r reader writer payload (ok (msg2, cipher)) true made reads writes p =
        accepts msg2 (encode (peer_static hs reader)) cipher (record {
          responder = r;
          reader = reader;
          writer = writer;
          payload = payload;
          made = made;
          reads = reads;
          key = refl;
          permitted = p;
          writes = writes;
        })

    heard-Outcome :
        (r : H) (p : H × Result Bytes)
        → new_responder hs keypair ≡ ok r
        → read_msg1 hs r msg1 ≡ p
        → Outcome keypair allowed msg1 server (heard hs encode allowed p server)
    heard-Outcome r (reader, err e) made reads = refuses e
    heard-Outcome r (reader, ok payload) made reads =
        decide-Outcome r reader (write_msg2 hs reader []).0 payload (write_msg2 hs reader []).1
          (is_allowed allowed (encode (peer_static hs reader))) made reads refl refl

    responded-Outcome :
        (made : Result H)
        → new_responder hs keypair ≡ made
        → Outcome keypair allowed msg1 server (responded hs encode allowed made msg1 server)
    responded-Outcome (err e) q = refuses e
    responded-Outcome (ok r) q = heard-Outcome r (read_msg1 hs r msg1) q refl

    -- Every handshake message is refused with nothing changed, or accepted: the responder read it,
    -- its key is that of an allowed client, the answer was written, and a session was made for it.
    pub on_auth-Outcome :
        Outcome keypair allowed msg1 server (on_auth hs encode keypair allowed msg1 server)
    unfolding on_auth
    on_auth-Outcome = responded-Outcome (new_responder hs keypair) refl

  module _ (keypair : DhKey) (allowed : List Bytes) where
    -- The authentication callback of the camouflage layer, at a moment.
    abbrev pub admits : Result (Bytes × ℕ) → Option (Bytes × Bool)
    admits (err e) = none
    admits (ok (msg2, n)) = some (msg2, true)

    abbrev pub auth_func : Server K → AuthFunc
    auth_func server = λ msg1. admits (on_auth hs encode keypair allowed msg1 server).1

    admits-Accepted :
        (msg1 resp : Bytes) (server : Server K) (p : Server K × Result (Bytes × ℕ))
        → Outcome keypair allowed msg1 server p
        → admits p.1 ≡ some (resp, true)
        → (msg2 : Bytes) × (client : Bytes) × (cipher : Option (Session K)) × Accepted keypair
            allowed msg1 msg2 client cipher
          × (p.0 ≡ admit client cipher server)
    admits-Accepted msg1 resp server p (refuses e) h = absurd (ground arith)
    admits-Accepted msg1 resp server p (accepts msg2 client cipher a) h =
        (msg2, client, cipher, a, refl)

    -- A request, whose body is bytes, gets a tunnel only with the tunnel's method and path, and only if
    -- its body begins with a handshake message that the responder can read and in which the key is
    -- that of an allowed client.
    pub tunnel_is_allowed :
        {W : Type 0} ⦃wr : Writer W⦄ (server : Server K) (tunnel_path : Bytes) (w : W)
        (method path : Bytes) (body : Reader) {w' : W} {rest : Reader}
        → AreBytes body.pending
        → serve_http tunnel_path (auth_func server) w method path body ≡ bridges w' rest
        → (method ≡ tunnel_method)
          × (path ≡ tunnel_path)
          × (msg1 : Bytes) × (msg2 : Bytes) × (client : Bytes) × (cipher : Option (Session K))
          × (body.pending ≡ prefixed msg1 ++ rest.pending)
          × Accepted keypair allowed msg1 msg2 client cipher
    tunnel_is_allowed server tunnel_path w method path body {w'} {rest} bytes h =
        let (m, p, a) =
          bridge-Authenticated tunnel_path (auth_func server) w method path body {w' = w'}
            {rest = rest} bytes h in
        let (msg2, client, cipher, accepted, same) =
          admits-Accepted a.msg1 a.resp server (on_auth hs encode keypair allowed a.msg1 server)
            (on_auth-Outcome keypair allowed a.msg1 server) a.accepted in
        (m, p, a.msg1, msg2, client, cipher, a.sent, accepted)

    outcome-live :
        (msg1 msg2 : Bytes) (n : ℕ) (server server' : Server K) (p : Server K × Result (Bytes × ℕ))
        → Outcome keypair allowed msg1 server p
        → p ≡ (server', ok (msg2, n))
        → (s : ServerSession K) × (lookup n server'.sessions ≡ some s)
          × (is_allowed allowed s.client ≡ true)
          × (s.done ≡ false)
    unfolding admit
    outcome-live msg1 msg2 n server server' p (refuses e) h = absurd (ground arith)
    outcome-live msg1 msg2 n server server' p (accepts msg2' client cipher a) h = (
      record { client = client; cipher = cipher; closed = false; done = false; closes = [] },
      ground arith,
      a.permitted,
      refl,
    )

    -- When a handshake is accepted, at any moment that can be reached, the session that is made is
    -- running for an allowed client, and any session that is not over is of another client or is
    -- the one just made.
    pub on_auth_ends_others :
        (msg1 msg2 : Bytes) (n m : ℕ) (server server' : Server K) (t : ServerSession K)
        → Reach hs encode keypair allowed server
        → on_auth hs encode keypair allowed msg1 server ≡ (server', ok (msg2, n))
        → lookup m server'.sessions ≡ some t
        → t.done ≡ false
        → (s : ServerSession K) × (lookup n server'.sessions ≡ some s)
          × (is_allowed allowed s.client ≡ true)
          × (s.done ≡ false)
          × ((same t.client s.client ≡ false) ⊎ (m ≡ n))
    on_auth_ends_others msg1 msg2 n m server server' t r h q up =
        let p = on_auth hs encode keypair allowed msg1 server in
        let (s, there, permitted, live) =
          outcome-live msg1 msg2 n server server' p (on_auth-Outcome keypair allowed msg1 server)
            h in
        let v = subst IsValid (ap (λ (x : Server K × Result (Bytes × ℕ)). x.0) h) (
          step-IsValid hs encode keypair allowed (sessions-IsValid hs encode keypair allowed r)
            (authenticating msg1)) in
        (
          s,
          there,
          permitted,
          live,
          elim (Bool-cases (same t.client s.client)) [
            | inr other ↦ inl other
            | inl alike ↦
                let clients = same_lem t.client s.client alike in
                let a = v.live n s there live in
                let b = v.live m t q up in inr (ground (arith, a, b, clients))
          ],
        )
