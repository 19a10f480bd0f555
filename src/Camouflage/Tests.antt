-- ===== src/Camouflage/Tests.antt =====
-- Runs of the length prefix and of the server.
use ghost_vpn.Camouflage.Client.{HandshakeConfig, Request, Response}
use ghost_vpn.Base.{
  ℕ, zero, suc, ◌==◌, ◌≡◌, refl, true, none, some, [], ◌∷◌, Bytes, same, if◌then◌else◌,
}
use ghost_vpn.Io.{eof, ok, Reader, Result}
use ghost_vpn.Io.Buffer.{buffer, all_sent, buffer_laws}
use ghost_vpn.Camouflage.Bridge.{
  begin_bridging, down_round, finish, Run, here, next, downs, finishes, IsSound, Run-IsSound,
}
use ghost_vpn.Camouflage.Server.{
  AuthFunc, tunnel_method, default_tunnel_path, serve_http, tunnel_handler,
}
use ghost_vpn.Camouflage.Server.Fallback.{fallback_gets_body}

abbrev hello : Bytes
hello = 104 ∷ 105 ∷ []

-- Authentication that accepts one message.
abbrev only_hello : AuthFunc
only_hello msg = if same msg hello then some (8 ∷ [], true) else none

abbrev probe : Reader
probe = record { pending = 0 ∷ 1 ∷ 65 ∷ 66 ∷ []; last = eof }

fallback_gets_body_example : probe ≡ probe
unfolding serve_http tunnel_handler
fallback_gets_body_example =
    fallback_gets_body {W = Bytes} default_tunnel_path only_hello [] tunnel_method
      default_tunnel_path probe {given = probe} refl

abbrev tunnel_body : Reader
tunnel_body = record { pending = 0 ∷ 2 ∷ 104 ∷ 105 ∷ 65 ∷ []; last = eof }

abbrev front : HandshakeConfig
front = record { server_url = []; host = 104 ∷ []; user_agent = [] }

abbrev answered : Request → Result Response
answered request =
    ok (record { status = 200; body = record { pending = 0 ∷ 1 ∷ 8 ∷ 66 ∷ []; last = eof } })

-- A URL from the slash that follows `n` others.
abbrev from_slash : ℕ → Bytes → Bytes
from_slash n [] = []
from_slash zero (b ∷ bs) = if b == 47 then b ∷ bs else from_slash zero bs
from_slash (suc n) (b ∷ bs) = if b == 47 then from_slash n bs else from_slash (suc n) bs

-- The tunnel gives two bytes with its end, and the handler returns.
bridged :
    Run
      (begin_bridging {W = Bytes} [])
      (finish (down_round (1 ∷ 2 ∷ []) (some eof) (begin_bridging [])))
      (1 ∷ 2 ∷ [])
unfolding down_round buffer
bridged = next (next here (downs (1 ∷ 2 ∷ []) (some eof) refl)) (finishes 0 refl refl)

Run-IsSound_example :
    IsSound all_sent []
      (1 ∷ 2 ∷ [])
      (finish (down_round (1 ∷ 2 ∷ []) (some eof) (begin_bridging [])))
Run-IsSound_example = Run-IsSound buffer_laws [] bridged
