-- ===== src/Config.antt =====
-- internal/config/config.go: the configuration once the YAML parser has filled it in. Strings are
-- sequences of bytes; an `int` is a ℤ.
pub mod Laws
mod Tests
use ghost_vpn.Base.{
  ℕ, zero, suc, ◌+◌, ◌<◌, Option, none, some, List, [], ◌∷◌, Bytes, length, take, get_or, ltb, ◌==◌,
  if◌then◌else◌,
}
use ghost_vpn.Io.{ℤ, pos, negsuc}

-- `TUNConfig`, `ServerConfig` and `ClientConfig`.
pub record TunConfig : Type 0 where
  pub name : Bytes
  pub address : Bytes
  pub mtu : ℤ
  pub dns : List Bytes

pub record ServerConfig : Type 0 where
  pub listen : Bytes
  pub cert_file : Bytes
  pub key_file : Bytes
  pub private_key : Bytes
  pub allowed_clients : List Bytes
  pub fallback_target : Bytes
  pub tunnel_path : Bytes
  pub profile_path : Bytes
  pub tun : TunConfig

pub record ClientConfig : Type 0 where
  pub server_addr : Bytes
  pub sni : Bytes
  pub front_host : Bytes
  pub private_key : Bytes
  pub server_public_key : Bytes
  pub fingerprint : Bytes
  pub user_agent : Bytes
  pub tunnel_path : Bytes
  pub profile_path : Bytes
  pub conn_lifetime_sec : ℤ
  pub tun : TunConfig

-- What reading a configuration may complain of.
pub data Missing : Type 0 where
  listen private_key fallback_target tun_address server_addr server_public_key : Missing
  unreadable unparsable : Missing

pub data Loaded {ℓ} (A : Type ℓ) : Type ℓ where
  loaded : A → Loaded A
  refused : Missing → Loaded A

-- "ghost0"
abbrev pub default_name : Bytes
default_name = 103 ∷ 104 ∷ 111 ∷ 115 ∷ 116 ∷ 48 ∷ []

-- `if t.MTU == 0 { t.MTU = 1400 }`
abbrev mtu_or_default : ℤ → ℤ
mtu_or_default (pos zero) = pos 1400
mtu_or_default (pos (suc n)) = pos (suc n)
mtu_or_default (negsuc n) = negsuc n

unfoldable pub apply_defaults : TunConfig → TunConfig
apply_defaults t = record t {
  name = if length t.name == 0 then default_name else t.name;
  mtu = mtu_or_default t.mtu;
}

-- `validate` of both: what is missing, if anything is.
unfoldable pub validate_server : ServerConfig → Option Missing
validate_server c =
    if length c.listen == 0
    then some Missing.listen
    else if length c.private_key == 0
    then some Missing.private_key
    else if length c.fallback_target == 0
    then some Missing.fallback_target
    else if length c.tun.address == 0
    then some tun_address
    else none

unfoldable pub validate_client : ClientConfig → Option Missing
validate_client c =
    if length c.server_addr == 0
    then some Missing.server_addr
    else if length c.private_key == 0
    then some Missing.private_key
    else if length c.server_public_key == 0
    then some Missing.server_public_key
    else if length c.tun.address == 0
    then some tun_address
    else none

-- The end of `LoadServer` and `LoadClient`.
abbrev checked {ℓ} : {A : Type ℓ} → A → Option Missing → Loaded A
checked c none = loaded c
checked c (some m) = refused m

-- `LoadServer` and `LoadClient`: `file` is what `os.ReadFile` returns, and `parse` is
-- `yaml.Unmarshal`.
unfoldable pub load_server : (Bytes → Option ServerConfig) → Option Bytes → Loaded ServerConfig
load_server parse none = refused unreadable
load_server parse (some file) = elim (parse file) [
  | none ↦ refused unparsable
  | some c ↦ let c' = record c { tun = apply_defaults c.tun } in checked c' (validate_server c')
]

unfoldable pub load_client : (Bytes → Option ClientConfig) → Option Bytes → Loaded ClientConfig
load_client parse none = refused unreadable
load_client parse (some file) = elim (parse file) [
  | none ↦ refused unparsable
  | some c ↦ let c' = record c { tun = apply_defaults c.tun } in checked c' (validate_client c')
]

-- The loop that strips the port, over the bytes below index `i`; 58 is ':'.
strip_port : Bytes → ℕ → Bytes
strip_port addr zero = addr
strip_port addr (suc i) =
    let rest = strip_port addr i in if get_or addr i 0 == 58 then take i addr else rest

-- `FrontHostOrSNI`
unfoldable pub front_host_or_sni : ClientConfig → Bytes
unfolding strip_port
front_host_or_sni c =
    if ltb 0 (length c.front_host)
    then c.front_host
    else if ltb 0 (length c.sni)
    then c.sni
    else strip_port c.server_addr (length c.server_addr)

-- `ConnLifetime`
unfoldable pub conn_lifetime : ClientConfig → ℕ
conn_lifetime c = elim c.conn_lifetime_sec [ negsuc n ↦ 0 | pos zero ↦ 90 | pos (suc n) ↦ suc n ]
