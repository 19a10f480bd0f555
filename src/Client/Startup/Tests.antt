-- ===== src/Client/Startup/Tests.antt =====
-- A start of the client whose stream cannot be opened.
use ghost_vpn.Auth.Noise.{new_initiator, write_msg1, read_msg2}
use ghost_vpn.Startup.{exits}
use ghost_vpn.Config.{load_client, validate_client, apply_defaults}
use ghost_vpn.Auth.Keys.{decode_key, keypair_from_private}
use ghost_vpn.Tun.Device.{new_device}
use ghost_vpn.Client.Establish.{establish}
use ghost_vpn.Crypto.Handshake.Plain.{plain, plain_write, plain_read}
use ghost_vpn.Base.{◌≡◌, refl, ℕ, none, some, [], ◌∷◌, replicate, false}
use ghost_vpn.Io.{pos, foreign, ok}
use ghost_vpn.Config.{ClientConfig, validate_client, apply_defaults}
use ghost_vpn.Tun.Device.{System}
use ghost_vpn.Client.Startup.{
  Machine, main, load_client, decode_key, keypair_from_private, new_device, establish,
}

abbrev config : ClientConfig
config = record {
  server_addr = 104 ∷ [];
  sni = [];
  front_host = [];
  private_key = 107 ∷ [];
  server_public_key = 112 ∷ [];
  fingerprint = [];
  user_agent = [];
  tunnel_path = [];
  profile_path = [];
  conn_lifetime_sec = pos 0;
  tun = record { name = 103 ∷ []; address = 49 ∷ []; mtu = pos 1400; dns = [] };
}

abbrev works : System
works = record { opening = none; attaching = λ name. ok name; nonblock = none; running = λ c. none }

abbrev machine : Machine ℕ
machine = record {
  file = some [];
  parse = λ file. some config;
  profile = λ path. ok 1;
  default_profile = 0;
  std = λ text. ok (replicate 32 1);
  raw_std = λ text. ok [];
  url = λ text. ok [];
  raw_url = λ text. ok [];
  derive = λ private. ok private;
  system = works;
  dial = none;
  exchange = λ msg1. ok msg1;
  stream_error = some (foreign 9);
  at_end = λ session. some session;
}

-- It exits, with the device made and only the mux left of the session.
gives_up : (main plain false machine).1 ≡ exits 1
unfolding main load_client validate_client apply_defaults decode_key keypair_from_private new_device
    establish new_initiator write_msg1 read_msg2 plain_write plain_read
gives_up = refl
