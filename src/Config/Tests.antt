-- ===== src/Config/Tests.antt =====
-- Runs of the configuration, with a parser that knows one file.
use ghost_vpn.Base.{some, Option, [], ◌∷◌, ◌++◌, Bytes}
use ghost_vpn.Io.{pos}
use ghost_vpn.Config.{TunConfig, ServerConfig, ClientConfig, default_name}

abbrev key : Bytes
key = 75 ∷ []

abbrev host : Bytes
host = 118 ∷ 112 ∷ 110 ∷ []

-- "443"
abbrev port : Bytes
port = 52 ∷ 52 ∷ 51 ∷ []

-- Neither a name nor an MTU.
abbrev bare_tun : TunConfig
bare_tun = record { name = []; address = 49 ∷ []; mtu = pos 0; dns = [] }

abbrev whole_tun : TunConfig
whole_tun = record bare_tun { name = default_name; mtu = pos 1400 }

abbrev client : TunConfig → ClientConfig
client t = record {
  server_addr = host ++ 58 ∷ port;
  sni = [];
  front_host = [];
  private_key = key;
  server_public_key = key;
  fingerprint = [];
  user_agent = [];
  tunnel_path = [];
  profile_path = [];
  conn_lifetime_sec = pos 0;
  tun = t;
}

abbrev server : TunConfig → ServerConfig
server t = record {
  listen = port;
  cert_file = [];
  key_file = [];
  private_key = key;
  allowed_clients = [];
  fallback_target = host;
  tunnel_path = [];
  profile_path = [];
  tun = t;
}

abbrev parse_client : Bytes → Option ClientConfig
parse_client file = some (client bare_tun)

abbrev parse_server : Bytes → Option ServerConfig
parse_server file = some (server bare_tun)
