-- ===== src/NmPlugin/Tests.antt =====
-- A run of the plugin's mapping.
use ghost_vpn.NmPlugin.Address.{Ip}
use ghost_vpn.Base.{some, none, ◌≡◌, refl, Option, none, [], ◌∷◌, Bytes}
use ghost_vpn.Io.{ℤ, pos}
use ghost_vpn.Config.{ClientConfig, default_name}
use ghost_vpn.NmPlugin.Settings.{Key, default_fingerprint, split_comma}

-- " 1,2" has two entries.
split_two : split_comma (32 ∷ 49 ∷ 44 ∷ 32 ∷ 44 ∷ 50 ∷ []) ≡ (49 ∷ []) ∷ (50 ∷ []) ∷ []
unfolding split_comma
split_two = refl

-- Only what is required is set.
abbrev required : Key → Bytes
required Key.server_addr = 115 ∷ []
required Key.server_public_key = 107 ∷ []
required Key.tun_addr = 49 ∷ []
required _ = []

abbrev no_numbers : Bytes → Option ℤ
no_numbers text = none

abbrev minimal : ClientConfig
minimal = record {
  server_addr = 115 ∷ [];
  sni = [];
  front_host = [];
  private_key = 112 ∷ [];
  server_public_key = 107 ∷ [];
  fingerprint = default_fingerprint;
  user_agent = [];
  tunnel_path = [];
  profile_path = [];
  conn_lifetime_sec = pos 0;
  tun = record { name = default_name; address = 49 ∷ []; mtu = pos 1400; dns = [] };
}

abbrev device : Ip
device = record { a = 10; b = 7; c = 0; d = 3 }

-- An address is printed as its bytes, and read back.
abbrev read_four : Bytes → Option Ip
read_four (a ∷ b ∷ c ∷ d ∷ []) = some (record { a = a; b = b; c = c; d = d })
read_four _ = none

abbrev print_four : Ip → Bytes
print_four ip = ip.a ∷ ip.b ∷ ip.c ∷ ip.d ∷ []
