-- ===== src/Camouflage/Server/Fallback.antt =====
-- internal/camouflage/h2_server.go and router.go: what a prober sees, and what it takes to get a
-- tunnel.
use ghost_vpn.Base.{
  ◌≤◌, ◌<◌, ◌≡◌, true, none, some, ◌++◌, Bytes, AreBytes, length, take, drop, arith, length-append,
  take-length_append, drop-length_append, take-append-drop, append_assoc, length-take, same_lem,
  same_refl, uint16, get_or, take_all, append-nil, [], Option-cases, inl, inr,
}
use ghost_vpn.Io.{Error, Reader, Writer, WriterLaws}
use ghost_vpn.Camouflage.Prefix.{write_length_prefixed}
use ghost_vpn.Camouflage.Prefix.RoundTrip.{prefixed, write_length_prefixed_sent}
use ghost_vpn.Camouflage.Server.{
  AuthFunc, falls_back, bridges, tunnel_method, max_handshake_buffer, tunnel_handler, serve_http,
}

-- What a request with a tunnel must have sent.
pub record Authenticated (on_auth : AuthFunc) (body rest : Reader) : Type 0 where
  pub msg1 : Bytes
  pub resp : Bytes
  pub accepted : on_auth msg1 ≡ some (resp, true)
  pub fits : (0 < length msg1) × (length msg1 ≤ max_handshake_buffer)
  pub sent : body.pending ≡ prefixed msg1 ++ rest.pending
  pub same_end : rest.last ≡ body.last

module _ {W : Type 0} ⦃wr : Writer W⦄ where
  tunnel_handler_falls_back :
      (on_auth : AuthFunc) (w : W) (body : Reader) {given : Reader}
      → tunnel_handler on_auth w body ≡ falls_back given
      → given ≡ body
  unfolding tunnel_handler
  tunnel_handler_falls_back on_auth w body h =
      let p = body.pending in
      let rest = drop 2 p in
      let n = uint16 (get_or (take 2 p) 0 0) (get_or (take 2 p) 1 0) in
      ground (
        arith,
        take-append-drop 2 p,
        take-append-drop n rest,
        take_all 2 p,
        take_all n rest,
        append-nil (take 2 p),
        append-nil rest,
        append_assoc (take 2 p) (take n rest) (drop n rest),
        append_assoc (take 2 p) (take n rest) [],
        append-nil (take n rest),
      )

  -- Whatever a request sends, if the fallback handler serves it, it gets the body that came in, byte
  -- for byte and with the same end: wrong path or method, a body that is no handshake, one that
  -- breaks off, and a message that authentication refuses.
  pub fallback_gets_body :
      (tunnel_path : Bytes) (on_auth : AuthFunc) (w : W) (method path : Bytes) (body : Reader)
      {given : Reader}
      → serve_http tunnel_path on_auth w method path body ≡ falls_back given
      → given ≡ body
  unfolding serve_http
  fallback_gets_body tunnel_path on_auth w method path body {given} h =
      ground (arith, tunnel_handler_falls_back on_auth w body {given = given})

  tunnel_handler_bridges :
      (on_auth : AuthFunc) (w : W) (body : Reader) {w' : W} {rest : Reader}
      → AreBytes body.pending
      → tunnel_handler on_auth w body ≡ bridges w' rest
      → Authenticated on_auth body rest
  unfolding tunnel_handler
  tunnel_handler_bridges on_auth w body {w'} {rest} bytes h =
      let p = body.pending in
      let n = uint16 (get_or (take 2 p) 0 0) (get_or (take 2 p) 1 0) in
      let msg1 = take n (drop 2 p) in
      elim (Option-cases (on_auth msg1)) [
        | inl refused ↦ absurd (ground arith)
        | inr ((resp, tunnel), q) ↦ record {
          msg1 = msg1;
          resp = resp;
          accepted = ground arith;
          fits = ground (arith, length-take n (drop 2 p));
          sent = ground (arith, bytes, length-take n (drop 2 p), take-append-drop n (drop 2 p));
          same_end = ground arith;
        }
      ]

  -- A request gets a tunnel only by the right method and path, and with a body that begins with a
  -- handshake message that authentication accepts; the tunnel gets exactly what follows it.
  pub bridge-Authenticated :
      (tunnel_path : Bytes) (on_auth : AuthFunc) (w : W) (method path : Bytes) (body : Reader)
      {w' : W} {rest : Reader}
      → AreBytes body.pending
      → serve_http tunnel_path on_auth w method path body ≡ bridges w' rest
      → (method ≡ tunnel_method) × (path ≡ tunnel_path) × Authenticated on_auth body rest
  unfolding serve_http
  bridge-Authenticated tunnel_path on_auth w method path body {w'} {rest} bytes h = (
    same_lem method tunnel_method (ground arith),
    same_lem path tunnel_path (ground arith),
    tunnel_handler_bridges on_auth w body {w' = w'} {rest = rest} bytes (ground arith),
  )

  -- A client whose first message authentication accepts, with an answer that can be written, gets
  -- that answer with its length, and the tunnel gets what the client sends after its message.
  pub handshake_bridges :
      {sent : W → Bytes} (laws : WriterLaws wr sent) (tunnel_path : Bytes) (on_auth : AuthFunc)
      (w : W) (msg1 resp rest : Bytes) (e : Error)
      → 0 < length msg1
      → length msg1 ≤ max_handshake_buffer
      → on_auth msg1 ≡ some (resp, true)
      → (write_length_prefixed w resp).1 ≡ none
      → (w' : W) × (serve_http tunnel_path on_auth w tunnel_method tunnel_path
            (record { pending = prefixed msg1 ++ rest; last = e })
          ≡ bridges w' (record { pending = rest; last = e }))
        × (sent w' ≡ sent w ++ prefixed resp)
  unfolding serve_http tunnel_handler
  handshake_bridges laws tunnel_path on_auth w msg1 resp rest e positive fits accepted written = (
    (write_length_prefixed w resp).0,
    ground (
      arith,
      same_refl tunnel_path,
      length-append msg1 rest,
      take-length_append msg1 rest,
      drop-length_append msg1 rest,
    ),
    (write_length_prefixed_sent laws w resp written).1,
  )
