-- ===== src/Server/Single.antt =====
-- cmd/ghost-server/main.go: one session for each client.
use ghost_vpn.Base.{
  ℕ, ◌≡◌, true, false, Bool-cases, inl, inr, Option, some, List, [], Bytes, lookup, same, arith,
}
use ghost_vpn.Io.{Result, ok, err}
use ghost_vpn.Auth.Keys.{DhKey}
use ghost_vpn.Auth.Session.{Session}
use ghost_vpn.Auth.Noise.{HandshakeState, new_responder, read_msg1, write_msg2, peer_static}
use ghost_vpn.Server.Sessions.{
  ServerSession, Server, no_sessions, is_allowed, on_auth, responded, heard, welcomed, ends, forget,
}
use ghost_vpn.Server.Valid.{IsValid, admit-IsValid, ends-IsValid, forget-IsValid}

module _ {H K : Type 0} (hs : HandshakeState H K) (encode : Bytes → Bytes) (keypair : DhKey)
    (allowed : List Bytes) where
  -- A handshake comes in, a connection ends, or the goroutine of an ended one runs.
  pub data Step (server : Server K) : Server K → Type 0 where
    authenticating : (msg1 : Bytes) → Step server (on_auth hs encode keypair allowed msg1 server).0
    ending :
        (n : ℕ) (s : ServerSession K)
        → lookup n server.sessions ≡ some s
        → Step server (ends n s server)
    forgetting :
        (n : ℕ) (s : ServerSession K)
        → lookup n server.sessions ≡ some s
        → s.done ≡ true
        → Step server (forget n s.client server)

  pub data Reach : Server K → Type 0 where
    here : Reach no_sessions
    next : {server server' : Server K} → Reach server → Step server server' → Reach server'

module _ {H K : Type 0} (hs : HandshakeState H K) (encode : Bytes → Bytes) where
  welcomed-IsValid :
      (client : Bytes) (server : Server K) (answer : Result (Bytes × Option (Session K)))
      → IsValid server
      → IsValid (welcomed hs encode client server answer).0
  welcomed-IsValid client server (err e) v = v
  welcomed-IsValid client server (ok (msg2, cipher)) v = admit-IsValid client cipher server v

  heard-IsValid :
      (allowed : List Bytes) (p : H × Result Bytes) (server : Server K)
      → IsValid server
      → IsValid (heard hs encode allowed p server).0
  heard-IsValid allowed (r, err e) server v = v
  heard-IsValid allowed (r, ok payload) server v =
      elim (Bool-cases (is_allowed allowed (encode (peer_static hs r)))) [
        | inl q ↦
            rw q (welcomed-IsValid (encode (peer_static hs r)) server (write_msg2 hs r []).1 v)
        | inr q ↦ rw q v
      ]

  responded-IsValid :
      (allowed : List Bytes) (made : Result H) (msg1 : Bytes) (server : Server K)
      → IsValid server
      → IsValid (responded hs encode allowed made msg1 server).0
  responded-IsValid allowed (err e) msg1 server v = v
  responded-IsValid allowed (ok r) msg1 server v =
      heard-IsValid allowed (read_msg1 hs r msg1) server v

  module _ (keypair : DhKey) (allowed : List Bytes) where
    pub step-IsValid :
        {server server' : Server K}
        → IsValid server
        → Step hs encode keypair allowed server server'
        → IsValid server'
    unfolding on_auth
    step-IsValid {server} v (authenticating msg1) =
        responded-IsValid allowed (new_responder hs keypair) msg1 server v
    step-IsValid {server} v (ending n s q) = ends-IsValid n s server q v
    step-IsValid {server} v (forgetting n s q over) = forget-IsValid n s server q over v

    -- Whatever handshakes come in and whatever connections end, in any order: a session that is not
    -- over is the active one of its client, each session is closed in full and in order or not at
    -- all, and a closed one is over.
    pub sessions-IsValid :
        {server : Server K} → Reach hs encode keypair allowed server → IsValid server
    sessions-IsValid here = record {
      known = λ n s h. absurd (ground arith);
      orderly = λ n s h. absurd (ground arith);
      live = λ n s h up. absurd (ground arith);
    }
    sessions-IsValid (next r step) = step-IsValid (sessions-IsValid r) step

    -- At every moment, two sessions of one client that are not over are the same session.
    pub one_session :
        {server : Server K} (n m : ℕ) (s t : ServerSession K)
        → Reach hs encode keypair allowed server
        → lookup n server.sessions ≡ some s
        → lookup m server.sessions ≡ some t
        → s.client ≡ t.client
        → s.done ≡ false
        → t.done ≡ false
        → n ≡ m
    one_session {server} n m s t r q q' same up up' =
        let v = sessions-IsValid r in
        let a = v.live n s q up in let b = v.live m t q' up' in ground (arith, a, b, same)
