-- ===== src/Camouflage/Server.antt =====
-- internal/camouflage/h2_server.go and router.go: which handler a request gets, and what the tunnel
-- handler does with its body. Strings are sequences of bytes. The authentication callback and the
-- writer of the response are parameters; what `bridge` copies afterwards is its arguments.
pub mod Fallback
use ghost_vpn.Base.{
  ℕ, Bool, true, false, ◌&&◌, ◌||◌, Option, none, some, List, [], ◌∷◌, ◌++◌, Bytes, length, take,
  get_or, uint16, same, ltb, ◌==◌, if◌then◌else◌,
}
use ghost_vpn.Io.{Error, Result, ok, err, Reader, read_full, Writer}
use ghost_vpn.Camouflage.Prefix.{write_length_prefixed}

-- "/api/v1/stream"
abbrev pub default_tunnel_path : Bytes
default_tunnel_path =
    47 ∷ 97 ∷ 112 ∷ 105 ∷ 47 ∷ 118 ∷ 49 ∷ 47 ∷ 115 ∷ 116 ∷ 114 ∷ 101 ∷ 97 ∷ 109 ∷ []

-- "POST"
abbrev pub tunnel_method : Bytes
tunnel_method = 80 ∷ 79 ∷ 83 ∷ 84 ∷ []

-- `SetTunnelPath`: the new value of the variable.
pub set_tunnel_path : Bytes → Bytes
set_tunnel_path p = if length p == 0 then default_tunnel_path else p

abbrev pub max_handshake_buffer : ℕ
max_handshake_buffer = 4096

-- `io.MultiReader` of bytes already read and the body that they were read from.
abbrev pub multi_reader : Bytes → Reader → Reader
multi_reader bytes r = record r { pending = bytes ++ r.pending }

-- `AuthFunc`: the answer, and whether there is a connection to bridge; `none` is an error.
abbrev pub AuthFunc : Type 0
AuthFunc = Bytes → Option (Bytes × Bool)

-- How a request ends.
pub data Served (W : Type 0) : Type 0 where
  -- the fallback handler serves it, with this body
  falls_back : Reader → Served W
  -- the answer could not be written, and a tunnel was closed
  gives_up : W → Served W
  -- the answer is written, and there is nothing to bridge
  answers_only : W → Served W
  -- the answer is written, and `bridge` runs over what is left of the body
  bridges : W → Reader → Served W

module _ {W : Type 0} ⦃wr : Writer W⦄ where
  -- After the handshake, with the answer to send.
  answer : W → Reader → Bytes → Bool → Served W
  answer w body resp has_tunnel =
      let (w', e) = write_length_prefixed w resp in
      elim e [
        | some x ↦ gives_up w'
        | none ↦ if has_tunnel then bridges w' body else answers_only w'
      ]

  authenticate : AuthFunc → W → Reader → Bytes → Bytes → Served W
  unfolding answer
  authenticate on_auth w body len_buf msg1 = elim (on_auth msg1) [
    | none ↦ falls_back (multi_reader (len_buf ++ msg1) body)
    | some (resp, has_tunnel) ↦ answer w body resp has_tunnel
  ]

  read_declared : AuthFunc → W → Reader → Bytes → ℕ → Served W
  unfolding authenticate
  read_declared on_auth w body len_buf declared =
      if declared == 0 || ltb max_handshake_buffer declared
      then falls_back (multi_reader len_buf body)
      else let (body', got) = read_full body declared in
        elim got [
          | err e ↦ falls_back (multi_reader (len_buf ++ take declared body.pending) body')
          | ok msg1 ↦ authenticate on_auth w body' len_buf msg1
        ]

  -- `TunnelHandler`; what `ReadFull` put in its buffer before an error is what there was.
  unfoldable pub tunnel_handler : AuthFunc → W → Reader → Served W
  unfolding read_declared
  tunnel_handler on_auth w body =
      let (body', got) = read_full body 2 in
      elim got [
        | err e ↦ falls_back (multi_reader (take 2 body.pending) body')
        | ok len_buf ↦
            read_declared on_auth w body' len_buf (uint16 (get_or len_buf 0 0) (get_or len_buf 1 0))
      ]

  -- `Router.ServeHTTP` with the tunnel handler as its tunnel, for the path that was set.
  unfoldable pub serve_http : Bytes → AuthFunc → W → Bytes → Bytes → Reader → Served W
  serve_http tunnel_path on_auth w method path body =
      if same method tunnel_method && same path tunnel_path
      then tunnel_handler on_auth w body
      else falls_back body
