-- ===== src/NmPlugin/Variant.antt =====
-- nm-plugin/plugin.go: what a D-Bus caller sends, and the settings in it. A Go map with string keys
-- is an association list.
use ghost_vpn.Base.{Option, none, some, List, [], ◌∷◌, Bytes, same, if◌then◌else◌}
use ghost_vpn.NmPlugin.Settings.{Key}

-- What `Value()` of a `dbus.Variant` may be; in a map of variants, a value that is not a string
-- is none.
pub data Variant : Type 0 where
  string_map : List (Bytes × Bytes) → Variant
  variant_map : List (Bytes × Option Bytes) → Variant
  other : Variant

-- `m[key]`
unfoldable pub find : {V : Type 0} → Bytes → List (Bytes × V) → Option V
find key [] = none
find key ((k, v) ∷ m) = let rest = find key m in if same k key then some v else rest

abbrev pub Section : Type 0
Section = List (Bytes × Variant)

abbrev strings : List (Bytes × Option Bytes) → List (Bytes × Bytes)
strings [] = []
strings ((k, none) ∷ m) = strings m
strings ((k, some s) ∷ m) = (k, s) ∷ strings m

-- `extractStringMap`; none is its error.
unfoldable pub extract_string_map : Variant → Option (List (Bytes × Bytes))
extract_string_map (string_map m) = some m
extract_string_map (variant_map m) = some (strings m)
extract_string_map other = none

-- The zero value of a `dbus.Variant`, for a missing key, has no value.
abbrev variant_or_zero : Option Variant → Variant
variant_or_zero none = other
variant_or_zero (some v) = v

abbrev pub member : Bytes → Section → Variant
unfolding find
member key section = variant_or_zero (find key section)

-- A missing string is "".
abbrev string_or_empty : Option Bytes → Bytes
string_or_empty none = []
string_or_empty (some s) = s

abbrev pub text : Bytes → List (Bytes × Bytes) → Bytes
unfolding find
text key m = string_or_empty (find key m)

-- No map is an empty one.
abbrev pub map_or_empty : Option (List (Bytes × Bytes)) → List (Bytes × Bytes)
map_or_empty none = []
map_or_empty (some m) = m

-- "vpn"
abbrev pub vpn_group : Bytes
vpn_group = 118 ∷ 112 ∷ 110 ∷ []

-- "data"
abbrev pub data_key : Bytes
data_key = 100 ∷ 97 ∷ 116 ∷ 97 ∷ []

-- "secrets"
abbrev pub secrets_key : Bytes
secrets_key = 115 ∷ 101 ∷ 99 ∷ 114 ∷ 101 ∷ 116 ∷ 115 ∷ []

-- "private-key"
abbrev pub private_key_name : Bytes
private_key_name = 112 ∷ 114 ∷ 105 ∷ 118 ∷ 97 ∷ 116 ∷ 101 ∷ 45 ∷ 107 ∷ 101 ∷ 121 ∷ []

abbrev pub key_name : Key → Bytes
key_name Key.server_addr = 115 ∷ 101 ∷ 114 ∷ 118 ∷ 101 ∷ 114 ∷ 45 ∷ 97 ∷ 100 ∷ 100 ∷ 114 ∷ []
key_name Key.server_public_key =
    115 ∷ 101 ∷ 114 ∷ 118 ∷ 101 ∷ 114 ∷ 45 ∷ 112 ∷ 117 ∷ 98 ∷ 108 ∷ 105 ∷ 99 ∷ 45 ∷ 107 ∷ 101 ∷ 121
    ∷ []
key_name Key.tun_addr = 116 ∷ 117 ∷ 110 ∷ 45 ∷ 97 ∷ 100 ∷ 100 ∷ 114 ∷ []
key_name Key.sni = 115 ∷ 110 ∷ 105 ∷ []
key_name Key.front_host = 102 ∷ 114 ∷ 111 ∷ 110 ∷ 116 ∷ 45 ∷ 104 ∷ 111 ∷ 115 ∷ 116 ∷ []
key_name Key.fingerprint = 102 ∷ 105 ∷ 110 ∷ 103 ∷ 101 ∷ 114 ∷ 112 ∷ 114 ∷ 105 ∷ 110 ∷ 116 ∷ []
key_name Key.user_agent = 117 ∷ 115 ∷ 101 ∷ 114 ∷ 45 ∷ 97 ∷ 103 ∷ 101 ∷ 110 ∷ 116 ∷ []
key_name Key.tunnel_path = 116 ∷ 117 ∷ 110 ∷ 110 ∷ 101 ∷ 108 ∷ 45 ∷ 112 ∷ 97 ∷ 116 ∷ 104 ∷ []
key_name Key.profile_path = 112 ∷ 114 ∷ 111 ∷ 102 ∷ 105 ∷ 108 ∷ 101 ∷ 45 ∷ 112 ∷ 97 ∷ 116 ∷ 104 ∷ []
key_name Key.tun_name = 116 ∷ 117 ∷ 110 ∷ 45 ∷ 110 ∷ 97 ∷ 109 ∷ 101 ∷ []
key_name Key.tun_mtu = 116 ∷ 117 ∷ 110 ∷ 45 ∷ 109 ∷ 116 ∷ 117 ∷ []
key_name Key.dns = 100 ∷ 110 ∷ 115 ∷ []
key_name Key.conn_lifetime_sec =
    99 ∷ 111 ∷ 110 ∷ 110 ∷ 45 ∷ 108 ∷ 105 ∷ 102 ∷ 101 ∷ 116 ∷ 105 ∷ 109 ∷ 101 ∷ 45 ∷ 115 ∷ 101 ∷ 99
    ∷ []
