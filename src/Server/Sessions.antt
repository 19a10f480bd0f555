-- ===== src/Server/Sessions.antt =====
-- cmd/ghost-server/main.go: `onAuth`, `closeSession` and the goroutine of a session. A session is
-- numbered by when it was made; what it is made of is closed part by part.
use ghost_vpn.Base.{
  ℕ, ◌+◌, Bool, true, false, ◌||◌, Option, none, some, List, [], ◌∷◌, ◌++◌, Bytes, Map, lookup,
  insert, same, ◌==◌, if◌then◌else◌,
}
use ghost_vpn.Io.{not_allowed, Result, ok, err}
use ghost_vpn.Auth.Keys.{DhKey}
use ghost_vpn.Auth.Session.{Session}
use ghost_vpn.Auth.Noise.{HandshakeState, new_responder, read_msg1, write_msg2, peer_static}

-- The fields of `serverSession` that `closeSession` closes.
pub data Part : Type 0 where
  shaper mux coalesced pipe1_w pipe2_w pipe1_r pipe2_r : Part

-- `closed` says that `closeOnce` has run, `done` that the channel `muxConn.Done()` is closed.
pub record ServerSession (K : Type 0) : Type 0 where
  pub client : Bytes
  pub cipher : Option (Session K)
  pub closed : Bool
  pub done : Bool
  pub closes : List Part

abbrev pub close_order : List Part
close_order = shaper ∷ mux ∷ coalesced ∷ pipe1_w ∷ pipe2_w ∷ pipe1_r ∷ pipe2_r ∷ []

-- `closeSession`
unfoldable pub close_session : {K : Type 0} → ServerSession K → ServerSession K
close_session s =
    if s.closed
    then s
    else record s { closed = true; done = true; closes = s.closes ++ close_order }

-- `activeSessions` by the client's key, and every session made.
pub record Server (K : Type 0) : Type 0 where
  pub active : List (Bytes × ℕ)
  pub sessions : Map (ServerSession K)
  pub next : ℕ

abbrev pub no_sessions : {K : Type 0} → Server K
no_sessions = record { active = []; sessions = []; next = 0 }

abbrev pub active_of : Bytes → List (Bytes × ℕ) → Option ℕ
active_of key [] = none
active_of key ((k, n) ∷ m) = let rest = active_of key m in if same k key then some n else rest

-- `delete(activeSessions, key)`
abbrev pub remove_active : Bytes → List (Bytes × ℕ) → List (Bytes × ℕ)
remove_active key [] = []
remove_active key ((k, n) ∷ m) =
    let rest = remove_active key m in if same k key then rest else (k, n) ∷ rest

abbrev pub update :
    {K : Type 0} → ℕ → Option (ServerSession K) → Map (ServerSession K) → Map (ServerSession K)
update n none m = m
update n (some s) m = insert n (close_session s) m

-- Closing the session that was active, if there was one.
abbrev pub kick : {K : Type 0} → Option ℕ → Map (ServerSession K) → Map (ServerSession K)
kick none m = m
kick (some n) m = update n (lookup n m) m

-- What `onAuth` does under the lock.
unfoldable pub admit : {K : Type 0} → Bytes → Option (Session K) → Server K → Server K
admit client cipher server = record {
  active = (client, server.next) ∷ remove_active client server.active;
  sessions =
      insert server.next
        (record { client = client; cipher = cipher; closed = false; done = false; closes = [] })
        (kick (active_of client server.active) server.sessions);
  next = server.next + 1;
}

abbrev pub member : Bytes → List Bytes → Bool
member key [] = false
member key (k ∷ ks) = same k key || member key ks

-- The list of the configuration; an empty one allows every client.
abbrev pub is_allowed : List Bytes → Bytes → Bool
is_allowed [] client = true
is_allowed (k ∷ ks) client = member client (k ∷ ks)

module _ {H K : Type 0} (hs : HandshakeState H K) (encode : Bytes → Bytes) where
  abbrev pub welcomed :
      Bytes → Server K → Result (Bytes × Option (Session K)) → Server K × Result (Bytes × ℕ)
  welcomed client server (err e) = (server, err e)
  welcomed client server (ok (msg2, cipher)) = (admit client cipher server, ok (msg2, server.next))

  -- `onAuth` from `PeerStatic` on.
  abbrev pub decide : List Bytes → H → Server K → Server K × Result (Bytes × ℕ)
  decide allowed r server =
      let client = encode (peer_static hs r) in
      let (r', answer) = write_msg2 hs r [] in
      if is_allowed allowed client then welcomed client server answer else (server, err not_allowed)

  abbrev pub heard : List Bytes → H × Result Bytes → Server K → Server K × Result (Bytes × ℕ)
  heard allowed (r, err e) server = (server, err e)
  heard allowed (r, ok payload) server = decide allowed r server

  abbrev pub responded : List Bytes → Result H → Bytes → Server K → Server K × Result (Bytes × ℕ)
  responded allowed (err e) msg1 server = (server, err e)
  responded allowed (ok r) msg1 server = heard allowed (read_msg1 hs r msg1) server

  -- `onAuth`: the answer and the session whose pipes the HTTP side gets.
  unfoldable pub on_auth : DhKey → List Bytes → Bytes → Server K → Server K × Result (Bytes × ℕ)
  on_auth keypair allowed msg1 server = responded allowed (new_responder hs keypair) msg1 server

abbrev pub is_active : ℕ → Option ℕ → Bool
is_active n none = false
is_active n (some k) = k == n

module _ {K : Type 0} where
  -- A session's connection ends by itself.
  abbrev pub ended : ServerSession K → ServerSession K
  ended s = record s { done = true }

  abbrev pub ends : ℕ → ServerSession K → Server K → Server K
  ends n s server = record server { sessions = insert n (ended s) server.sessions }

  -- The goroutine of session `n`, once its connection is done.
  unfoldable pub forget : ℕ → Bytes → Server K → Server K
  forget n client server =
      if is_active n (active_of client server.active)
      then record server { active = remove_active client server.active }
      else server
