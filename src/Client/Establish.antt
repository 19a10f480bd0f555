-- ===== src/Client/Establish.antt =====
-- cmd/ghost-client/main.go: `establish` and `tunnelSession.close`. Dialling, the request of the
-- camouflage client and the opening of the stream are parameters. An effect is a call that this code
-- makes: that the coalescer's own Close closes the tunnel below it as well is not one.
use ghost_vpn.Base.{
  ℕ, suc, ◌≡◌, refl, Bool, true, false, Option, none, some, List, [], ◌∷◌, ◌++◌, Bytes,
  if◌then◌else◌,
}
use ghost_vpn.Io.{
  Error, tls_dial, noise_initiator, noise_msg1, tunnel_handshake, noise_msg2, open_failed, Result,
  ok, err,
}
use ghost_vpn.Auth.Keys.{DhKey}
use ghost_vpn.Auth.Session.{Session}
use ghost_vpn.Auth.Noise.{HandshakeState, new_initiator, write_msg1, read_msg2}

-- What a session is made of.
pub data Part : Type 0 where
  conn tunnel coalesced mux stream shaper : Part

pub data Effect : Type 0 where
  opens closes : Part → Effect

-- `tunnelSession`; `closed` is its channel.
pub record TunnelSession : Type 0 where
  pub closed : Bool
  pub effects : List Effect

abbrev pub close_effects : List Effect
close_effects =
    closes shaper ∷ closes stream ∷ closes mux ∷ closes coalesced ∷ closes tunnel ∷ closes conn ∷ []

-- `tunnelSession.close`
unfoldable pub close : TunnelSession → TunnelSession
close s = if s.closed then s else record { closed = true; effects = s.effects ++ close_effects }

abbrev same_part : Part → Part → Bool
same_part conn conn = true
same_part tunnel tunnel = true
same_part coalesced coalesced = true
same_part mux mux = true
same_part stream stream = true
same_part shaper shaper = true
same_part _ _ = false

abbrev remove_part : Part → List Part → List Part
remove_part p [] = []
remove_part p (q ∷ qs) = let rest = remove_part p qs in if same_part p q then rest else q ∷ rest

abbrev pub after : List Part → Effect → List Part
after parts (opens p) = p ∷ parts
after parts (closes p) = remove_part p parts

-- What is open after these effects, the last opened first.
abbrev pub left_open : List Part → List Effect → List Part
left_open parts [] = parts
left_open parts (e ∷ es) = left_open (after parts e) es

module _ {H K : Type 0} (hs : HandshakeState H K) where
  -- From the mux on.
  abbrev pub with_stream :
      Option Error → Option (Session K) → List Effect × Result (TunnelSession × Option (Session K))
  with_stream (some e) cipher = (
    opens conn
        ∷ opens tunnel
        ∷ opens coalesced
        ∷ opens mux
        ∷ closes coalesced
        ∷ closes tunnel
        ∷ closes conn
        ∷ [],
    err (open_failed e),
  )
  with_stream none cipher =
      let made =
        opens conn
        ∷ opens tunnel
        ∷ opens coalesced
        ∷ opens mux
        ∷ opens stream
        ∷ opens shaper
        ∷ [] in
      (made, ok (record { closed = false; effects = made }, cipher))

  abbrev pub with_msg2 :
      Option Error
      → H × Result (Bytes × Option (Session K))
      → List Effect × Result (TunnelSession × Option (Session K))
  with_msg2 stream_error (i, err e) =
      (opens conn ∷ opens tunnel ∷ closes tunnel ∷ closes conn ∷ [], err (noise_msg2 e))
  with_msg2 stream_error (i, ok (payload, cipher)) = with_stream stream_error cipher

  abbrev pub with_answer :
      Option Error → H → Result Bytes → List Effect × Result (TunnelSession × Option (Session K))
  with_answer stream_error i (err e) = (opens conn ∷ closes conn ∷ [], err (tunnel_handshake e))
  with_answer stream_error i (ok msg2) = with_msg2 stream_error (read_msg2 hs i msg2)

  abbrev pub with_msg1 :
      (Bytes → Result Bytes)
      → Option Error
      → H × Result Bytes
      → List Effect × Result (TunnelSession × Option (Session K))
  with_msg1 exchange stream_error (i, err e) = (opens conn ∷ closes conn ∷ [], err (noise_msg1 e))
  with_msg1 exchange stream_error (i, ok msg1) = with_answer stream_error i (exchange msg1)

  abbrev pub with_initiator :
      (Bytes → Result Bytes)
      → Option Error
      → Result H
      → List Effect × Result (TunnelSession × Option (Session K))
  with_initiator exchange stream_error (err e) =
      (opens conn ∷ closes conn ∷ [], err (noise_initiator e))
  with_initiator exchange stream_error (ok i) = with_msg1 exchange stream_error (write_msg1 hs i [])

  -- `establish`: what it opened and closed, and the session with its cipher states. `exchange` sends the
  -- first message in a request and returns the second.
  unfoldable pub establish :
      Option Error
      → (Bytes → Result Bytes)
      → Option Error
      → DhKey
      → Bytes
      → List Effect × Result (TunnelSession × Option (Session K))
  establish (some e) exchange stream_error client server_public = ([], err (tls_dial e))
  establish none exchange stream_error client server_public =
      with_initiator exchange stream_error (new_initiator hs client server_public)

-- What is left open by an attempt, by how it ended.
abbrev pub Fits : {A : Type 0} → List Effect × Result A → Type 0
Fits (effects, err (open_failed e)) = left_open [] effects ≡ mux ∷ []
Fits (effects, err e) = left_open [] effects ≡ []
Fits (effects, ok a) = left_open [] effects ≡ shaper ∷ stream ∷ mux ∷ coalesced ∷ tunnel ∷ conn ∷ []

-- How often each part is closed, the parts in the order in which `close` comes to them.
abbrev closes_of : Part → List Effect → ℕ
closes_of p [] = 0
closes_of p (opens q ∷ es) = closes_of p es
closes_of p (closes q ∷ es) = let rest = closes_of p es in if same_part p q then suc rest else rest

abbrev pub close_counts : List Effect → List ℕ
close_counts es =
    closes_of shaper es
    ∷ closes_of stream es
    ∷ closes_of mux es
    ∷ closes_of coalesced es
    ∷ closes_of tunnel es
    ∷ closes_of conn es
    ∷ []

-- A session that was set up can be torn down.
abbrev pub Closable : {A : Type 0} → Result (TunnelSession × A) → Type 0
Closable (err e) = Unit
Closable (ok (s, a)) =
    (left_open [] (close s).effects ≡ [])
    × (close_counts (close s).effects ≡ 1 ∷ 1 ∷ 1 ∷ 1 ∷ 1 ∷ 1 ∷ [])
    × (close (close s) ≡ close s)

module _ {H K : Type 0} (hs : HandshakeState H K) where
  Both : List Effect × Result (TunnelSession × Option (Session K)) → Type 0
  Both p = Fits p × Closable p.1

  with_stream-Both : (e : Option Error) (c : Option (Session K)) → Both (with_stream hs e c)
  unfolding Both close
  with_stream-Both (some e) c = (refl, tt)
  with_stream-Both none c = (refl, (refl, refl, refl))

  with_msg2-Both :
      (e : Option Error) (p : H × Result (Bytes × Option (Session K))) → Both (with_msg2 hs e p)
  unfolding Both
  with_msg2-Both e (i, err x) = (refl, tt)
  with_msg2-Both e (i, ok (payload, c)) = with_stream-Both e c

  with_answer-Both :
      (e : Option Error) (i : H) (answer : Result Bytes) → Both (with_answer hs e i answer)
  unfolding Both
  with_answer-Both e i (err x) = (refl, tt)
  with_answer-Both e i (ok msg2) = with_msg2-Both e (read_msg2 hs i msg2)

  with_msg1-Both :
      (exchange : Bytes → Result Bytes) (e : Option Error) (p : H × Result Bytes)
      → Both (with_msg1 hs exchange e p)
  unfolding Both
  with_msg1-Both exchange e (i, err x) = (refl, tt)
  with_msg1-Both exchange e (i, ok msg1) = with_answer-Both e i (exchange msg1)

  with_initiator-Both :
      (exchange : Bytes → Result Bytes) (e : Option Error) (made : Result H)
      → Both (with_initiator hs exchange e made)
  unfolding Both
  with_initiator-Both exchange e (err x) = (refl, tt)
  with_initiator-Both exchange e (ok i) = with_msg1-Both exchange e (write_msg1 hs i [])

  -- However an attempt to set up a tunnel ends: on an error everything that it opened is closed
  -- again, but for the mux when the stream cannot be opened; on success all six parts are open, and
  -- closing the session leaves none open: it calls the Close of each exactly once, and does nothing
  -- more when it is called again.
  pub establish-Fits :
      (dial : Option Error) (exchange : Bytes → Result Bytes) (stream_error : Option Error)
      (client : DhKey) (server_public : Bytes)
      → Fits (establish hs dial exchange stream_error client server_public)
        × Closable (establish hs dial exchange stream_error client server_public).1
  unfolding establish Both
  establish-Fits (some e) exchange stream_error client server_public = (refl, tt)
  establish-Fits none exchange stream_error client server_public =
      with_initiator-Both exchange stream_error (new_initiator hs client server_public)
