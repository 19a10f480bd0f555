-- ===== src/Server/Tests.antt =====
-- Runs of the server's sessions, with the handshake without cryptography.
use ghost_vpn.Base.{
  ℕ, ◌≡◌, refl, true, false, Option, some, [], ◌∷◌, ◌++◌, Bytes, replicate, lookup, arith, same,
  ◌⊎◌,
}
use ghost_vpn.Io.{eof, not_allowed, err}
use ghost_vpn.Io.Buffer.{buffer}
use ghost_vpn.Auth.Noise.{new_responder, read_msg1, write_msg2, peer_static}
use ghost_vpn.Auth.Session.{new_session, Session}
use ghost_vpn.Crypto.Handshake.Plain.{plain, plain_write, plain_read, server_key}
use ghost_vpn.Camouflage.Prefix.{write_length_prefixed}
use ghost_vpn.Camouflage.Prefix.RoundTrip.{prefixed}
use ghost_vpn.Camouflage.Server.{tunnel_method, default_tunnel_path, tunnel_handler, serve_http}
use ghost_vpn.Server.Sessions.{
  ServerSession, Server, no_sessions, close_order, close_session, admit, on_auth, is_allowed,
}
use ghost_vpn.Server.Single.{Reach, here, next, authenticating, sessions-IsValid}
use ghost_vpn.Server.Valid.{IsValid}
use ghost_vpn.Server.Admission.{Accepted, on_auth_ends_others, tunnel_is_allowed}

abbrev key : Bytes
key = replicate 32 2

abbrev as_is : Bytes → Bytes
as_is text = text

abbrev hello : Bytes
hello = key ++ 104 ∷ []

abbrev authenticate : Bytes → Server ℕ → Server ℕ
authenticate msg1 server = (on_auth plain as_is server_key (key ∷ []) msg1 server).0

abbrev once : Server ℕ
once = authenticate hello no_sessions

-- The same client comes again.
abbrev twice : Server ℕ
twice = authenticate hello once

abbrev second : ServerSession ℕ
second = record {
  client = key;
  cipher = new_session (some 0) (some 0);
  closed = false;
  done = false;
  closes = [];
}

-- The first of them is closed in full.
twice_lem :
    lookup 0 twice.sessions
    ≡ some (record second { closed = true; done = true; closes = close_order })
unfolding on_auth new_responder read_msg1 write_msg2 peer_static plain_write plain_read admit
    close_session
twice_lem = refl

-- Another key is refused.
stranger :
    (on_auth plain as_is server_key (key ∷ []) (replicate 32 9) once) ≡ (once, err not_allowed)
unfolding on_auth new_responder read_msg1 write_msg2 peer_static plain_write plain_read admit
    close_session
stranger = refl

abbrev second_id : ℕ
second_id = 1

twice-Reach : Reach plain as_is server_key (key ∷ []) twice
twice-Reach = next (next here (authenticating hello)) (authenticating hello)

sessions-IsValid_example : IsValid twice
sessions-IsValid_example = sessions-IsValid plain as_is server_key (key ∷ []) twice-Reach

on_auth_ends_others_example :
    (s : ServerSession ℕ) × (lookup 1 twice.sessions ≡ some s)
    × (is_allowed (key ∷ []) s.client ≡ true)
    × (s.done ≡ false)
    × ((same key s.client ≡ false) ⊎ (second_id ≡ second_id))
unfolding on_auth new_responder read_msg1 write_msg2 peer_static plain_write plain_read admit
    close_session
on_auth_ends_others_example =
    on_auth_ends_others plain as_is server_key (key ∷ []) hello [] second_id second_id once twice
      second (next here (authenticating hello)) refl refl refl

tunnel_is_allowed_example :
    (tunnel_method ≡ tunnel_method)
    × (default_tunnel_path ≡ default_tunnel_path)
    × (msg1 : Bytes) × (msg2 : Bytes) × (client : Bytes) × (cipher : Option (Session ℕ)) × (prefixed
            hello
          ++ 7 ∷ []
        ≡ prefixed msg1 ++ 7 ∷ [])
    × Accepted plain as_is server_key (key ∷ []) msg1 msg2 client cipher
unfolding on_auth new_responder read_msg1 write_msg2 peer_static plain_write plain_read admit
    close_session serve_http tunnel_handler write_length_prefixed buffer
tunnel_is_allowed_example =
    tunnel_is_allowed plain as_is server_key (key ∷ []) once default_tunnel_path [] tunnel_method
      default_tunnel_path (record { pending = prefixed hello ++ 7 ∷ []; last = eof })
      {w' = prefixed []} {rest = record { pending = 7 ∷ []; last = eof }} (ground arith) refl
