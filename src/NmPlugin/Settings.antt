-- ===== src/NmPlugin/Settings.antt =====
-- nm-plugin/config.go: the settings of a NetworkManager connection as a client configuration, which
-- the plugin writes to a file for ghost-client. `strconv.Atoi` is a parameter.
use ghost_vpn.Base.{
  ℕ, ◌<◌, ◌≡◌, Bool, ◌||◌, ◌&&◌, Option, none, some, List, [], ◌∷◌, Bytes, length, ◌==◌,
  if◌then◌else◌, arith,
}
use ghost_vpn.Io.{ℤ, pos}
use ghost_vpn.Config.{
  ClientConfig, Missing, tun_address, Loaded, loaded, refused, default_name, validate_client,
}

-- The keys that are read from the connection's data; a missing one is "".
pub data Key : Type 0 where
  server_addr server_public_key tun_addr sni front_host fingerprint user_agent : Key
  tunnel_path profile_path tun_name tun_mtu dns conn_lifetime_sec : Key

-- "chrome"
abbrev pub default_fingerprint : Bytes
default_fingerprint = 99 ∷ 104 ∷ 114 ∷ 111 ∷ 109 ∷ 101 ∷ []

-- `splitOn` at a byte.
cons_first : ℕ → List Bytes → List Bytes
cons_first b [] = (b ∷ []) ∷ []
cons_first b (p ∷ ps) = (b ∷ p) ∷ ps

split_on : Bytes → ℕ → List Bytes
unfolding cons_first
split_on [] sep = [] ∷ []
split_on (b ∷ bs) sep =
    let rest = split_on bs sep in if b == sep then [] ∷ rest else cons_first b rest

-- ' ' and '\t'
abbrev is_space : ℕ → Bool
is_space b = b == 32 || b == 9

trim_left : Bytes → Bytes
trim_left [] = []
trim_left (b ∷ bs) = let rest = trim_left bs in if is_space b then rest else b ∷ bs

trim_right : Bytes → Bytes
trim_right [] = []
trim_right (b ∷ bs) =
    let rest = trim_right bs in if length rest == 0 && is_space b then [] else b ∷ rest

unfoldable pub trim_space : Bytes → Bytes
unfolding trim_left trim_right
trim_space s = trim_left (trim_right s)

keep_parts : List Bytes → List Bytes
keep_parts [] = []
keep_parts (p ∷ ps) =
    let rest = keep_parts ps in let t = trim_space p in if length t == 0 then rest else t ∷ rest

-- `splitComma`
unfoldable pub split_comma : Bytes → List Bytes
unfolding split_on trim_left trim_right trim_space keep_parts
split_comma s = keep_parts (split_on s 44)

-- A number where the text is one, else what was there before.
abbrev number_or : ℤ → Option ℤ → ℤ
number_or d none = d
number_or d (some n) = n

abbrev setting : (Bytes → Option ℤ) → Bytes → ℤ → ℤ
setting atoi text d = if length text == 0 then d else number_or d (atoi text)

-- What `buildClientConfig` has built when nothing is missing.
built : (Bytes → Option ℤ) → (Key → Bytes) → Bytes → ClientConfig
built atoi get private_key = record {
  server_addr = get Key.server_addr;
  sni = get Key.sni;
  front_host = get Key.front_host;
  private_key = private_key;
  server_public_key = get Key.server_public_key;
  fingerprint =
      if length (get Key.fingerprint) == 0 then default_fingerprint else get Key.fingerprint;
  user_agent = get Key.user_agent;
  tunnel_path = get Key.tunnel_path;
  profile_path = get Key.profile_path;
  conn_lifetime_sec = setting atoi (get Key.conn_lifetime_sec) (pos 0);
  tun = record {
    name = if length (get tun_name) == 0 then default_name else get tun_name;
    address = get tun_addr;
    mtu = setting atoi (get tun_mtu) (pos 1400);
    dns = if length (get Key.dns) == 0 then [] else split_comma (get Key.dns);
  };
}

-- `buildClientConfig`
unfoldable pub build_client_config :
    (Bytes → Option ℤ) → (Key → Bytes) → Bytes → Loaded ClientConfig
unfolding built
build_client_config atoi get private_key =
    if length (get Key.server_addr) == 0
    then refused Missing.server_addr
    else if length (get Key.server_public_key) == 0
    then refused Missing.server_public_key
    else if length private_key == 0
    then refused Missing.private_key
    else if length (get tun_addr) == 0
    then refused tun_address
    else loaded (built atoi get private_key)

-- What the plugin builds, the client accepts: its own validation of that configuration finds nothing
-- missing, and a fingerprint and a device are named.
pub build_client_config_valid :
    (atoi : Bytes → Option ℤ) (get : Key → Bytes) (private_key : Bytes) {c : ClientConfig}
    → build_client_config atoi get private_key ≡ loaded c
    → (validate_client c ≡ none) × (0 < length c.fingerprint) × (0 < length c.tun.name)
unfolding build_client_config validate_client
build_client_config_valid atoi get private_key h = ground arith
