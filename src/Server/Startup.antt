-- ===== src/Server/Startup.antt =====
-- cmd/ghost-server/main.go: `main`, from its flags to its last line. What it calls outside the program is
-- a Machine; what it changes there are its actions.
pub mod Host
pub mod Cleanup
pub mod Leak
mod Tests
use ghost_vpn.Base.{
  ℕ, suc, ◌+◌, ◌-◌, Bool, true, false, Option, none, some, List, [], ◌∷◌, ◌++◌, map, Bytes, length,
  ◌==◌, if◌then◌else◌,
}
use ghost_vpn.Io.{ℤ, Error, Result, ok, err}
use ghost_vpn.Auth.Keys.{DhKey, decode_key, keypair_from_private}
use ghost_vpn.Camouflage.Server.{set_tunnel_path}
use ghost_vpn.Config.{ServerConfig, load_server}
use ghost_vpn.Fallback.{Url, new_proxy}
use ghost_vpn.Startup.{
  Ended, goes_on, returns, exits, Main, pure, tell, ◌>>=◌, ◌>>◌, or_exit, or_refuse,
}
use ghost_vpn.Transport.Listener.{Listener, listen}
use ghost_vpn.Tun.Device.{
  Action, runs, closes, Device, System, new_device, Command, ip_forward, add_nat, delete_nat,
}

-- The file, the parsers, the profile, the keys, the network and the system, as they answer.
pub record Machine (P : Type 0) : Type 0 where
  pub file : Option Bytes
  pub parse : Bytes → Option ServerConfig
  pub profile : Bytes → Result P
  pub default_profile : P
  pub std : Bytes → Result Bytes
  pub raw_std : Bytes → Result Bytes
  pub url : Bytes → Result Bytes
  pub raw_url : Bytes → Result Bytes
  pub derive : Bytes → Result Bytes
  pub parse_url : Bytes → Result Url
  pub system : System
  pub subnet_of : Bytes → Result Bytes
  pub load : Bytes → Bytes → Result ℕ
  pub bind : Bytes → Option Error
  -- what `Serve` returns; none is `http.ErrServerClosed`
  pub serving : Listener → Option Error

pub data Act (P : Type 0) : Type 0 where
  prints_version : Act P
  sets_path : Bytes → Act P
  device : Action → Act P
  starts_router : Act P
  -- the handlers, with what they need
  serves : DhKey → List Bytes → Url → P → Listener → Act P
  opens_listener : Act P
  closes_listener : Act P

module _ {P : Type 0} where
  -- `LoadServer` and `profile.Load`
  abbrev pub load_profile : Machine P → Bytes → Main (Act P) P
  load_profile m path =
      if length path == 0 then pure m.default_profile else or_exit (m.profile path)

  abbrev pub load_keypair : Machine P → Bytes → Main (Act P) DhKey
  load_keypair m text = do
    private ← or_exit (decode_key m.std m.raw_std m.url m.raw_url text)
    or_exit (keypair_from_private m.derive private)

  abbrev pub create_device : Machine P → ServerConfig → Main (Act P) Device
  create_device m c =
      let (actions, got) =
        new_device m.system
          (record { name = c.tun.name; address = c.tun.address; mtu = c.tun.mtu }) in
      tell (map device actions) >> or_exit got

  -- The two commands, whose errors are only logged.
  abbrev pub set_up_nat : Bytes → Main (Act P) Unit
  set_up_nat subnet = tell (device (runs ip_forward) ∷ device (runs (add_nat subnet)) ∷ [])

  abbrev pub open_listener : Result Listener → Main (Act P) Listener
  open_listener (err e) = ([], exits 1)
  open_listener (ok ln) = (opens_listener ∷ [], goes_on ln)

  -- The deferred calls, the last one first.
  abbrev pub deferred : Bytes → List (Act P)
  deferred subnet = closes_listener ∷ device (runs (delete_nat subnet)) ∷ device closes ∷ []

  abbrev pub after_serving : Bytes → Option Error → Main (Act P) Unit
  after_serving subnet (some e) = ([], exits 1)
  after_serving subnet none = (deferred subnet, returns)

  -- From `tun.New` on.
  abbrev pub run_network : Machine P → ServerConfig → P → DhKey → Url → Main (Act P) Unit
  run_network m c prof keypair target = do
    tun ← create_device m c
    tell (starts_router ∷ [])
    subnet ← or_exit (m.subnet_of c.tun.address)
    set_up_nat subnet
    ln ← open_listener (
        listen m.load m.bind (record {
          listen_addr = c.listen;
          cert_file = c.cert_file;
          key_file = c.key_file;
          certificates = [];
          next_protos = [];
          tcp_keep_alive = ℤ.pos 0;
        }))
    tell (serves keypair c.allowed_clients target prof ln ∷ [])
    after_serving subnet (m.serving ln)

  abbrev pub run_server : Machine P → Main (Act P) Unit
  run_server m = do
    c ← or_refuse (load_server m.parse m.file)
    tell (sets_path (set_tunnel_path c.tunnel_path) ∷ [])
    prof ← load_profile m c.profile_path
    keypair ← load_keypair m c.private_key
    target ← or_exit (new_proxy m.parse_url c.fallback_target)
    run_network m c prof keypair target

  -- `main`
  unfoldable pub main : Bool → Machine P → Main (Act P) Unit
  main show_version m = if show_version then (prints_version ∷ [], returns) else run_server m
