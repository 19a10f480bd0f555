-- ===== src/NmPlugin/Service.antt =====
-- nm-plugin/plugin.go: the plugin's state and its D-Bus methods. The world is what the plugin keeps
-- together with what it changes outside: the signals sent, the temporary files, the processes
-- started and the goroutines under way. New files, processes and contexts are numbered.
pub mod Connect
pub mod Invariant
pub mod Quiet
pub mod Silence
pub mod Sound
pub mod Steps
pub mod Tidy
mod Tests
pub mod Watch
use ghost_vpn.Base.{
  ℕ, ◌+◌, ◌≡◌, Bool, true, false, ◌||◌, Option, none, some, List, [], ◌∷◌, ◌++◌, Bytes, length, Map,
  insert, delete, lookup, ◌==◌, if◌then◌else◌, ◌⊎◌, inl, inr,
}
use ghost_vpn.Io.{ℤ, Error}
use ghost_vpn.Config.{ClientConfig, Missing, Loaded, loaded, refused, default_name}
use ghost_vpn.NmPlugin.Settings.{build_client_config}
use ghost_vpn.NmPlugin.Variant.{
  Section, find, text, member, map_or_empty, extract_string_map, vpn_group, data_key, secrets_key,
  private_key_name, key_name,
}

-- NMVPNServiceState
pub data ServiceState : Type 0 where
  unknown init shutdown starting started stopping stopped : ServiceState

abbrev pub state_code : ServiceState → ℕ
state_code unknown = 1
state_code init = 2
state_code shutdown = 3
state_code starting = 4
state_code started = 5
state_code stopping = 6
state_code stopped = 7

-- failureConnectFailed
abbrev pub failure_connect_failed : ℕ
failure_connect_failed = 2

-- The dictionaries of the signals `Config` and `Ip4Config`; an address that is left out is none, and
-- so are no name servers.
pub record ConfigDict : Type 0 where
  pub tundev : Bytes
  pub has_ip4 : Bool
  pub has_ip6 : Bool
  pub gateway : Option ℕ

pub record Ip4Dict : Type 0 where
  pub address : ℕ
  pub prefix : ℕ
  pub internal_gateway : ℕ
  pub tundev : Bytes
  pub never_default : Bool
  pub dns : List ℕ

pub data Signal : Type 0 where
  state_changed : ServiceState → Signal
  config : ConfigDict → Signal
  ip4_config : Ip4Dict → Signal
  failure : ℕ → Signal

-- Where a run of `watchTunAndReport` stands: in the loop's select, behind the device's probe (which
-- found it or not, with the deadline passed or not), in the sleep before the final check, between the
-- two signals, before its lock, and in `cmd.Wait`.
pub data Phase : Type 0 where
  selecting : Phase
  probed : Bool → Phase
  settling : Phase
  configured : Phase
  reporting : Phase
  failing : Phase
  waiting : Phase

-- The arguments of `watchTunAndReport`, besides its context.
pub record Watcher : Type 0 where
  pub process : ℕ
  pub tun_name : Bytes
  pub tun_addr : Bytes
  pub dns : List Bytes
  pub server_addr : Bytes
  pub phase : Phase

-- `Plugin`: no file is "" in `cfgTmp`.
pub record Plugin : Type 0 where
  pub state : ServiceState
  pub proc : Option ℕ
  pub cfg_tmp : Option ℕ
  pub cancel_watch : Option ℕ

-- A started command: the file of its -config, and whether it was sent SIGTERM and has exited.
pub record Process : Type 0 where
  pub config_file : ℕ
  pub signalled : Bool
  pub exited : Bool

pub record World : Type 0 where
  pub plugin : Plugin
  pub signals : List Signal
  pub files : List ℕ
  pub processes : Map Process
  pub watchers : Map Watcher
  pub cancelled : List ℕ
  -- the goroutines of `Disconnect`, by the process that they wait for
  pub reapers : List ℕ
  pub next : ℕ
  pub crashed : Bool

-- `New`
abbrev pub start : World
start = record {
  plugin = record { state = init; proc = none; cfg_tmp = none; cancel_watch = none };
  signals = [];
  files = [];
  processes = [];
  watchers = [];
  cancelled = [];
  reapers = [];
  next = 0;
  crashed = false;
}

abbrev pub remove_file : ℕ → List ℕ → List ℕ
remove_file f [] = []
remove_file f (g ∷ gs) = let rest = remove_file f gs in if g == f then rest else g ∷ rest

-- `emitState`
unfoldable pub emit_state : ServiceState → World → World
emit_state s w = record w {
  plugin = record w.plugin { state = s };
  signals = w.signals ++ state_changed s ∷ [];
}

abbrev pub emit : Signal → World → World
emit s w = record w { signals = w.signals ++ s ∷ [] }

abbrev pub without : Option ℕ → List ℕ → List ℕ
without none files = files
without (some f) files = remove_file f files

-- `cleanup`
unfoldable pub cleanup : World → World
cleanup w = record w {
  plugin = record w.plugin { proc = none; cfg_tmp = none };
  files = without w.plugin.cfg_tmp w.files;
}

-- `cmd.Process.Signal(SIGTERM)`
abbrev pub terminated : Option Process → ℕ → Map Process → Map Process
terminated none p m = m
terminated (some x) p m = insert p (record x { signalled = true }) m

abbrev pub terminate : ℕ → World → World
terminate p w = record w { processes = terminated (lookup p w.processes) p w.processes }

pub data DbusError : Type 0 where
  already_connected no_vpn_section bad_data read_only unknown_property : DbusError
  bad_settings : Missing → DbusError
  temp_config write_config start_client : Error → DbusError
