-- ===== src/Config/Laws.antt =====
-- internal/config/config.go: what a loaded configuration has, and the host of the requests.
use ghost_vpn.Base.{
  ℕ, zero, suc, ◌+◌, ◌<◌, ◌≡◌, ◌≢◌, none, some, Option, [], ◌∷◌, ◌++◌, Bytes, All, length, get_or,
  arith, take-length_append, length-append, ap, take_cast,
}
use ghost_vpn.Io.{pos}
use ghost_vpn.Config.{
  ServerConfig, ClientConfig, loaded, load_server, load_client, apply_defaults, validate_server,
  validate_client, strip_port, front_host_or_sni,
}

-- A configuration that a client loads names its server, both keys, its address and its device, and its
-- MTU is not zero.
pub load_client_complete :
    (parse : Bytes → Option ClientConfig) (file : Option Bytes) {c : ClientConfig}
    → load_client parse file ≡ loaded c
    → (0 < length c.server_addr)
      × (0 < length c.private_key)
      × (0 < length c.server_public_key)
      × (0 < length c.tun.address)
      × (0 < length c.tun.name)
      × (c.tun.mtu ≢ pos 0)
unfolding load_client apply_defaults validate_client
load_client_complete parse (some file) h = ground arith
load_client_complete parse none h = absurd (ground arith)

-- A configuration that a server loads names where to listen, its key, the fallback website, its address
-- and its device, and its MTU is not zero.
pub load_server_complete :
    (parse : Bytes → Option ServerConfig) (file : Option Bytes) {c : ServerConfig}
    → load_server parse file ≡ loaded c
    → (0 < length c.listen)
      × (0 < length c.private_key)
      × (0 < length c.fallback_target)
      × (0 < length c.tun.address)
      × (0 < length c.tun.name)
      × (c.tun.mtu ≢ pos 0)
unfolding load_server apply_defaults validate_server
load_server_complete parse (some file) h = ground arith
load_server_complete parse none h = absurd (ground arith)

-- No ':' in it.
abbrev pub NoColon : Bytes → Type 0
NoColon = All (λ (b : ℕ). b ≢ 58)

get_or-append_right :
    (xs ys : Bytes) (i n : ℕ) → n ≡ length xs + i → get_or (xs ++ ys) n 0 ≡ get_or ys i 0
get_or-append_right [] ys i n q = ap (λ (m : ℕ). get_or ys m 0) (omega (arith, q))
get_or-append_right (x ∷ xs) ys i zero q = absurd (omega (arith, q))
get_or-append_right (x ∷ xs) ys i (suc n) q = get_or-append_right xs ys i n (omega (arith, q))

get_or-NoColon : (ys : Bytes) (i : ℕ) → NoColon ys → get_or ys i 0 ≢ 58
get_or-NoColon [] i h = ground arith
get_or-NoColon (y ∷ ys) zero h = h.0
get_or-NoColon (y ∷ ys) (suc i) h = get_or-NoColon ys i h.1

-- From an index past the last ':', the loop goes down to it.
strip_port_stops :
    (host port : Bytes) (n i : ℕ)
    → n ≡ length host + 1 + i
    → NoColon port
    → strip_port (host ++ 58 ∷ port) n ≡ host
unfolding strip_port
strip_port_stops host port zero i q h = absurd (omega (arith, q))
strip_port_stops host port (suc m) zero q h = ground (
  arith,
  get_or-append_right host (58 ∷ port) 0 m,
  take-length_append host (58 ∷ port),
  take_cast (host ++ 58 ∷ port) {m = m} {n = length host},
)
strip_port_stops host port (suc m) (suc i) q h = ground (
  arith,
  get_or-append_right host (58 ∷ port) (suc i) m,
  get_or-NoColon port i h,
  strip_port_stops host port m i (omega (arith, q)) h,
)

-- Without a front host and an SNI, the host of the requests is what stands before the last ':' of the
-- server's address.
pub front_host_or_sni_lem :
    (c : ClientConfig) (host port : Bytes)
    → length c.front_host ≡ 0
    → length c.sni ≡ 0
    → c.server_addr ≡ host ++ 58 ∷ port
    → NoColon port
    → front_host_or_sni c ≡ host
unfolding front_host_or_sni
front_host_or_sni_lem c host port f s a h = ground (
  arith,
  a,
  length-append host (58 ∷ port),
  strip_port_stops host port (length (host ++ 58 ∷ port)) (length port)
      (omega (arith, length-append host (58 ∷ port))) h,
)
