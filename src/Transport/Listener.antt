-- ===== src/Transport/Listener.antt =====
-- internal/transport/listener.go: the server's TLS listener. Loading a certificate and binding an address
-- are parameters; a certificate is a number.
use ghost_vpn.Base.{
  ℕ, ◌<◌, ◌≡◌, not, ◌&&◌, Option, none, some, List, [], ◌∷◌, Bytes, length, ◌==◌, if◌then◌else◌,
  arith,
}
use ghost_vpn.Io.{ℤ, Error, no_listen_addr, no_certificate, load_cert, tcp_listen, Result, ok, err}
use ghost_vpn.Transport.Dialer.{h2, http11, or_default, default_keep_alive, tls12}

pub record ListenerConfig : Type 0 where
  pub listen_addr : Bytes
  pub cert_file : Bytes
  pub key_file : Bytes
  pub certificates : List ℕ
  pub next_protos : List Bytes
  pub tcp_keep_alive : ℤ

-- The listener, with its TLS configuration and the keepalive of `keepAliveListener`.
pub record Listener : Type 0 where
  pub certificates : List ℕ
  pub next_protos : List Bytes
  pub min_version : ℕ
  pub keep_alive : ℕ

-- `nextProtos`
abbrev pub protos_of : List Bytes → List Bytes
protos_of [] = h2 ∷ http11 ∷ []
protos_of (p ∷ ps) = p ∷ ps

abbrev loaded : Result ℕ → Result (List ℕ)
loaded (err e) = err (load_cert e)
loaded (ok cert) = ok (cert ∷ [])

abbrev pub certificates_of : (Bytes → Bytes → Result ℕ) → List ℕ → Bytes → Bytes → Result (List ℕ)
certificates_of load (c ∷ cs) cert_file key_file = ok (c ∷ cs)
certificates_of load [] cert_file key_file =
    if not (length cert_file == 0) && not (length key_file == 0)
    then loaded (load cert_file key_file)
    else err no_certificate

abbrev pub bound : ListenerConfig → Result (List ℕ) → Option Error → Result Listener
bound c (err e) ended = err e
bound c (ok certs) (some e) = err (tcp_listen e)
bound c (ok certs) none = ok (record {
  certificates = certs;
  next_protos = protos_of c.next_protos;
  min_version = tls12;
  keep_alive = or_default default_keep_alive c.tcp_keep_alive;
})

-- `Listen`
unfoldable pub listen :
    (Bytes → Bytes → Result ℕ) → (Bytes → Option Error) → ListenerConfig → Result Listener
listen load bind c =
    if length c.listen_addr == 0
    then err no_listen_addr
    else bound c (certificates_of load c.certificates c.cert_file c.key_file) (bind c.listen_addr)

-- A listener that is made has a certificate, offers a protocol, and keeps its connections alive.
pub listen-ready :
    (load : Bytes → Bytes → Result ℕ) (bind : Bytes → Option Error) (c : ListenerConfig)
    {l : Listener}
    → listen load bind c ≡ ok l
    → (0 < length l.certificates) × (0 < length l.next_protos) × (0 < l.keep_alive)
unfolding listen
listen-ready load bind c h = ground arith
