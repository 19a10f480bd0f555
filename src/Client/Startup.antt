-- ===== src/Client/Startup.antt =====
-- cmd/ghost-client/main.go: `main`, from its flags to its shutdown. What it calls outside the program is
-- a Machine; between the start of its goroutines and the shutdown they run as in Client/Sessions.antt.
pub mod Shutdown
mod Tests
use ghost_vpn.Base.{
  ℕ, Bool, true, false, Option, none, some, List, [], ◌∷◌, ◌++◌, map, Bytes, length, ◌==◌,
  if◌then◌else◌,
}
use ghost_vpn.Io.{ℤ, Error, Result, ok, err}
use ghost_vpn.Auth.Keys.{DhKey, decode_key, keypair_from_private}
use ghost_vpn.Auth.Noise.{HandshakeState}
use ghost_vpn.Auth.Session.{Session}
use ghost_vpn.Camouflage.Server.{set_tunnel_path}
use ghost_vpn.Config.{ClientConfig, load_client}
use ghost_vpn.Startup.{
  Ended, goes_on, returns, exits, Main, pure, tell, ◌>>=◌, ◌>>◌, or_exit, or_refuse,
}
use ghost_vpn.Tun.Device.{Action, closes, Device, System, new_device}
use ghost_vpn.Client.Establish.{Effect, TunnelSession, establish, close_effects}

-- The file, the parsers, the profile, the keys, the network and the system, as they answer.
pub record Machine (P : Type 0) : Type 0 where
  pub file : Option Bytes
  pub parse : Bytes → Option ClientConfig
  pub profile : Bytes → Result P
  pub default_profile : P
  pub std : Bytes → Result Bytes
  pub raw_std : Bytes → Result Bytes
  pub url : Bytes → Result Bytes
  pub raw_url : Bytes → Result Bytes
  pub derive : Bytes → Result Bytes
  pub system : System
  pub dial : Option Error
  pub exchange : Bytes → Result Bytes
  pub stream_error : Option Error
  -- the active session when a signal comes, from the one that was set up first
  pub at_end : TunnelSession → Option TunnelSession

pub data Act : Type 0 where
  prints_version : Act
  sets_path : Bytes → Act
  device : Action → Act
  tunnel : Effect → Act
  starts_reader : Act
  cancels_reader : Act

module _ {P : Type 0} where
  abbrev pub load_profile : Machine P → Bytes → Main Act P
  load_profile m path =
      if length path == 0 then pure m.default_profile else or_exit (m.profile path)

  abbrev pub load_key : Machine P → Bytes → Main Act Bytes
  load_key m text = or_exit (decode_key m.std m.raw_std m.url m.raw_url text)

  abbrev pub create_device : Machine P → ClientConfig → Main Act Device
  create_device m c =
      let (actions, got) =
        new_device m.system
          (record { name = c.tun.name; address = c.tun.address; mtu = c.tun.mtu }) in
      tell (map device actions) >> or_exit got

-- `cur.close()`
abbrev pub close_active : Option TunnelSession → List Act
close_active none = []
close_active (some s) = if s.closed then [] else map tunnel close_effects

-- From `<-ctx.Done()` on, with the deferred `Close` of the device.
abbrev pub shut_down : Option TunnelSession → Main Act Unit
shut_down cur = (cancels_reader ∷ close_active cur ++ device closes ∷ [], returns)

module _ {H K P : Type 0} (hs : HandshakeState H K) where
  abbrev pub connect : Machine P → DhKey → Bytes → Main Act (TunnelSession × Option (Session K))
  connect m keypair server_public =
      let (effects, got) = establish hs m.dial m.exchange m.stream_error keypair server_public in
      tell (map tunnel effects) >> or_exit got

  abbrev pub run_client : Machine P → Main Act Unit
  run_client m = do
    c ← or_refuse (load_client m.parse m.file)
    tell (sets_path (set_tunnel_path c.tunnel_path) ∷ [])
    prof ← load_profile m c.profile_path
    private ← load_key m c.private_key
    keypair ← or_exit (keypair_from_private m.derive private)
    server_public ← load_key m c.server_public_key
    tun ← create_device m c
    session ← connect m keypair server_public
    tell (starts_reader ∷ [])
    shut_down (m.at_end session.0)

  -- `main`
  unfoldable pub main : Bool → Machine P → Main Act Unit
  main show_version m = if show_version then (prints_version ∷ [], returns) else run_client m
