-- ===== src/Camouflage/Client.antt =====
-- internal/camouflage/h2_client.go: the request that opens a tunnel. The HTTP/2 client is a
-- parameter: what it returns for a request, whose body begins with the first message.
use ghost_vpn.Base.{
  ℕ, ◌%◌, ◌^◌, none, Option, some, List, [], ◌∷◌, ◌++◌, Bytes, length, put_uint16, ◌==◌,
  if◌then◌else◌,
}
use ghost_vpn.Io.{Error, http_build, http_request, http_status, http_msg2, Result, ok, err, Reader}
use ghost_vpn.Camouflage.Prefix.{read_length_prefixed}
use ghost_vpn.Camouflage.Headers.{scheme, default_user_agent, headers}
use ghost_vpn.Camouflage.Server.{tunnel_method}

-- `ClientConfig`
pub record HandshakeConfig : Type 0 where
  pub server_url : Bytes
  pub host : Bytes
  pub user_agent : Bytes

abbrev pub agent_of : HandshakeConfig → Bytes
agent_of c = if length c.user_agent == 0 then default_user_agent else c.user_agent

abbrev pub url_of : Bytes → HandshakeConfig → Bytes
url_of tunnel_path c =
    if length c.server_url == 0 then scheme ++ c.host ++ tunnel_path else c.server_url

-- The request, with what its body begins with.
pub record Request : Type 0 where
  pub method : Bytes
  pub url : Bytes
  pub headers : List (Bytes × Bytes)
  pub body : Bytes

pub record Response : Type 0 where
  pub status : ℕ
  pub body : Reader

-- What `Handshake` closes when it fails: the pipe of the request's body, and the response's body.
pub data Closed : Type 0 where
  pipe response : Closed

unfoldable pub request_of : Bytes → HandshakeConfig → Bytes → Request
request_of tunnel_path c msg1 = record {
  method = tunnel_method;
  url = url_of tunnel_path c;
  headers = headers (agent_of c) c.host;
  body = put_uint16 (length msg1 % 2 ^ 16) ++ msg1;
}

abbrev with_msg2 : Reader × Result Bytes → List Closed × Result (Bytes × Reader)
with_msg2 (rest, err e) = (pipe ∷ response ∷ [], err (http_msg2 e))
with_msg2 (rest, ok msg2) = ([], ok (msg2, rest))

abbrev with_response : Result Response → List Closed × Result (Bytes × Reader)
with_response (err e) = (pipe ∷ [], err (http_request e))
with_response (ok r) =
    if r.status == 200
    then with_msg2 (read_length_prefixed r.body)
    else (pipe ∷ response ∷ [], err (http_status r.status))

-- `Handshake`: what it closed, and the second message with what a `TunnelConn` then reads.
-- `malformed` is the error of `http.NewRequestWithContext`.
unfoldable pub handshake :
    (malformed : Option Error)
    → (Request → Result Response)
    → Bytes
    → HandshakeConfig
    → Bytes
    → List Closed × Result (Bytes × Reader)
handshake (some e) exchange tunnel_path c msg1 = (pipe ∷ [], err (http_build e))
handshake none exchange tunnel_path c msg1 =
    with_response (exchange (request_of tunnel_path c msg1))
