-- ===== src/NmPlugin/Service/Watch.antt =====
-- nm-plugin/plugin.go: the methods besides `Connect`, and the goroutines of `Connect` and
-- `Disconnect`. What `net` and `strconv` do, the probe of the device and the clock are parameters.
use ghost_vpn.Base.{
  ℕ, ◌⊎◌, inl, inr, Bool, true, false, ◌||◌, Option, none, some, List, [], ◌∷◌, Bytes, length,
  insert, delete, lookup, ◌==◌, same, if◌then◌else◌, ◌&&◌,
}
use ghost_vpn.Io.{ℤ}
use ghost_vpn.NmPlugin.Address.{Ip, little_endian, cut, prefix_of, derive_gateway, parse_dns}
use ghost_vpn.NmPlugin.Service.{
  ServiceState, started, stopping, stopped, state_code, ConfigDict, Ip4Dict, config, ip4_config,
  failure, failure_connect_failed, Phase, Watcher, Process, World, emit_state, emit, cleanup,
  terminate, remove_file, DbusError, unknown_property, read_only, probed, Section, reporting,
  configured, failing, selecting, settling, waiting,
}
use ghost_vpn.NmPlugin.Service.Connect.{Connection}
use ghost_vpn.NmPlugin.Variant.{
  find, text, member, map_or_empty, extract_string_map, vpn_group, secrets_key, private_key_name,
}

abbrev pub cancel : Option ℕ → World → World
cancel none w = w
cancel (some ctx) w = record w {
  cancelled = ctx ∷ w.cancelled;
  plugin = record w.plugin { cancel_watch = none };
}

abbrev pub stop_process : Option ℕ → World → World
stop_process none w = emit_state stopped (cleanup w)
stop_process (some p) w = record (terminate p w) { reapers = p ∷ w.reapers }

-- `Disconnect`
unfoldable pub disconnect : World → World
disconnect w = stop_process w.plugin.proc (emit_state stopping (cancel w.plugin.cancel_watch w))

-- The goroutine of `Disconnect` once `Wait` has returned.
unfoldable pub reap : ℕ → World → World
reap p w = emit_state stopped (cleanup (record w { reapers = remove_file p w.reapers }))

-- `NeedSecrets`: the name of the missing secret, or "".
abbrev section_or_empty : Option Section → Section
section_or_empty none = []
section_or_empty (some s) = s

unfoldable pub need_secrets : Connection → Bytes
need_secrets settings =
    let vpn = section_or_empty (find vpn_group settings) in
    let secrets = map_or_empty (extract_string_map (member secrets_key vpn)) in
    if length (text private_key_name secrets) == 0 then private_key_name else []

-- `propsHandler.Get` and `GetAll`; `Set` refuses always.
unfoldable pub get_property : (iface prop vpn_iface state_name : Bytes) → World → DbusError ⊎ ℕ
get_property iface prop vpn_iface state_name w =
    if same iface vpn_iface && same prop state_name
    then inr (state_code w.plugin.state)
    else inl unknown_property

unfoldable pub get_all : World → ℕ
get_all w = state_code w.plugin.state

unfoldable pub set_property : World → World × DbusError
set_property w = (w, read_only)

abbrev pub has : ℕ → List ℕ → Bool
has n [] = false
has n (m ∷ ms) = m == n || has n ms

-- What `watchTunAndReport` sees of the world outside: whether its timer fired, whether the device is
-- there, and whether 30 seconds have passed.
pub record Seen : Type 0 where
  pub timer : Bool
  pub found : Bool
  pub late : Bool

abbrev pub move : ℕ → Watcher → Phase → World → World
move ctx x phase w = record w { watchers = insert ctx (record x { phase = phase }) w.watchers }

abbrev pub quit : ℕ → World → World
quit ctx w = record w { watchers = delete ctx w.watchers }

-- The loop's next round: found, too late, or the select again.
abbrev pub after_probe : Seen → Phase
after_probe seen = if seen.found then probed true else if seen.late then probed false else selecting

abbrev pub exit_of : Option Process → Bool
exit_of none = true
exit_of (some p) = p.exited

abbrev pub is_started : ServiceState → Bool
is_started started = true
is_started _ = false

module _ (to4 : Bytes → Option Ip) (show : Ip → Bytes) (atoi : Bytes → Option ℤ) where
  -- The server's address, where it is IPv4.
  abbrev server_ip : Option Ip → Option ℕ
  server_ip none = none
  server_ip (some ip) = some (little_endian ip)

  abbrev pub config_dict : Watcher → ConfigDict
  config_dict x = record {
    tundev = x.tun_name;
    has_ip4 = true;
    has_ip6 = false;
    gateway = server_ip (to4 (cut 58 x.server_addr).0);
  }

  abbrev pub ip4_dict : Watcher → Ip → Ip → Ip4Dict
  ip4_dict x addr gw = record {
    address = little_endian addr;
    prefix = prefix_of (atoi (cut 47 x.tun_addr).1);
    internal_gateway = little_endian gw;
    tundev = x.tun_name;
    never_default = false;
    dns = parse_dns to4 x.dns;
  }

  -- The device's address and the gateway; none where `Uint32` of a nil address would panic.
  abbrev pub both_ips : Option Ip → Option Ip → Option (Ip × Ip)
  both_ips none gw = none
  both_ips (some addr) none = none
  both_ips (some addr) (some gw) = some (addr, gw)

  unfoldable pub addresses : Watcher → Option (Ip × Ip)
  addresses x =
      let addr = (cut 47 x.tun_addr).0 in both_ips (to4 addr) (to4 (derive_gateway to4 show addr))

  -- From the final check to the signal `Config`.
  abbrev pub check : Option (Ip × Ip) → ℕ → Watcher → World → World
  check none ctx x w = record w { crashed = true }
  check (some (addr, gw)) ctx x w = move ctx x configured (emit (config (config_dict x)) w)

  abbrev pub announce : Option (Ip × Ip) → ℕ → Watcher → World → World
  announce none ctx x w = record w { crashed = true }
  announce (some (addr, gw)) ctx x w =
      move ctx x reporting (emit (ip4_config (ip4_dict x addr gw)) w)

  -- What `watchTunAndReport` does next.
  abbrev pub go : Phase → Seen → ℕ → Watcher → World → World
  go selecting seen ctx x w =
      if seen.timer
      then move ctx x (after_probe seen) w
      else if has ctx w.cancelled
      then quit ctx w
      else w
  go (probed false) seen ctx x w =
      move ctx x failing (emit_state stopped (cleanup (terminate x.process w)))
  go (probed true) seen ctx x w = if has ctx w.cancelled then quit ctx w else move ctx x settling w
  go settling seen ctx x w = if has ctx w.cancelled then quit ctx w else check (addresses x) ctx x w
  go configured seen ctx x w = announce (addresses x) ctx x w
  go reporting seen ctx x w = move ctx x waiting (emit_state started w)
  go failing seen ctx x w = quit ctx (emit (failure failure_connect_failed) w)
  go waiting seen ctx x w =
      if exit_of (lookup x.process w.processes)
      then if is_started w.plugin.state
        then quit ctx (emit_state stopped (cleanup w))
        else quit ctx w
      else w

  abbrev pub go_of : Option Watcher → Seen → ℕ → World → World
  go_of none seen ctx w = w
  go_of (some x) seen ctx w = go x.phase seen ctx x w

  unfoldable pub watch : Seen → ℕ → World → World
  watch seen ctx w = go_of (lookup ctx w.watchers) seen ctx w
