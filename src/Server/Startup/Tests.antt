-- ===== src/Server/Startup/Tests.antt =====
-- Starts of the server on a machine that answers everything, and on one whose port is taken.
use ghost_vpn.Base.{ℕ, refl, false, Option, none, some, [], ◌∷◌, Bytes, replicate}
use ghost_vpn.Io.{pos, Error, foreign, tcp_listen, ok}
use ghost_vpn.Auth.Keys.{DhKey}
use ghost_vpn.Config.{ServerConfig}
use ghost_vpn.Fallback.{Url}
use ghost_vpn.Tun.Device.{System, new_device}
use ghost_vpn.Transport.Listener.{listen}
use ghost_vpn.Server.Startup.{Machine, main, run_network}
use ghost_vpn.Server.Startup.Host.{Never}
use ghost_vpn.Server.Startup.Cleanup.{EndsMain, main-Ends}
use ghost_vpn.Server.Startup.Leak.{Leaks, listen_failure-Leaks}

abbrev key : Bytes
key = replicate 32 1

abbrev config : ServerConfig
config = record {
  listen = 58 ∷ [];
  cert_file = 99 ∷ [];
  key_file = 107 ∷ [];
  private_key = 112 ∷ [];
  allowed_clients = [];
  fallback_target = 104 ∷ [];
  tunnel_path = [];
  profile_path = [];
  tun = record { name = 103 ∷ []; address = 49 ∷ []; mtu = pos 1400; dns = [] };
}

abbrev site : Url
site = record { scheme = 104 ∷ []; host = 104 ∷ [] }

abbrev works : System
works = record { opening = none; attaching = λ name. ok name; nonblock = none; running = λ c. none }

-- Binding the port ends like this.
abbrev machine : Option Error → Machine ℕ
machine bound = record {
  file = some [];
  parse = λ file. some config;
  profile = λ path. ok 1;
  default_profile = 0;
  std = λ text. ok key;
  raw_std = λ text. ok key;
  url = λ text. ok key;
  raw_url = λ text. ok key;
  derive = λ private. ok private;
  parse_url = λ target. ok site;
  system = works;
  subnet_of = λ address. ok address;
  load = λ cert private. ok 5;
  bind = λ address. bound;
  serving = λ ln. none;
}

abbrev pair : DhKey
pair = record { private = key; public = key }

main-Ends_example :
    EndsMain
      (machine none)
      2
      Never
      (record { rules = 2; opened = false; listening = false; stuck = false })
      (main false (machine none))
main-Ends_example = main-Ends (machine none) 2 false

listen_failure-Leaks_example :
    Leaks
      (machine (some (foreign 98)))
      2
      (record { rules = 2; opened = false; listening = false; stuck = false })
      (run_network (machine (some (foreign 98))) config 0 pair site)
unfolding new_device listen
listen_failure-Leaks_example =
    listen_failure-Leaks (machine (some (foreign 98))) 2 config 0 pair site
      {d = record { name = 103 ∷ []; mtu = pos 1400 }} {subnet = 49 ∷ []}
      {e = tcp_listen (foreign 98)} refl refl refl refl
