-- ===== src/NmPlugin/Service/Tests.antt =====
-- Runs of the plugin.
use ghost_vpn.Base.{
  ◌≡◌, refl, subst, arith, true, false, Option, none, some, [], ◌∷◌, Bytes, lookup,
}
use ghost_vpn.Io.{ℤ}
use ghost_vpn.NmPlugin.Address.{Ip, derive_gateway}
use ghost_vpn.NmPlugin.Variant.{
  find, extract_string_map, string_map, vpn_group, data_key, secrets_key, private_key_name,
  key_name,
}
use ghost_vpn.NmPlugin.Settings.{Key, build_client_config}
use ghost_vpn.NmPlugin.Service.{
  emit_state, cleanup, selecting, starting, stopped, started, Process, World, start, find,
  extract_string_map, build_client_config, emit_state, cleanup,
}
use ghost_vpn.NmPlugin.Service.Connect.{requested, Attempt, Connection, connect, requested}
use ghost_vpn.NmPlugin.Service.Watch.{addresses, Seen, disconnect, reap, watch, addresses}
use ghost_vpn.NmPlugin.Service.Steps.{connecting, disconnecting, watching, here, next, exits}
use ghost_vpn.NmPlugin.Service.Invariant.{Reach-IsSound}
use ghost_vpn.NmPlugin.Service.Sound.{IsSound}
use ghost_vpn.NmPlugin.Service.Tidy.{IsTidy, Reach-IsTidy}
use ghost_vpn.NmPlugin.Service.Quiet.{Early, IsSilent, SendsOnlyQuiet}
use ghost_vpn.NmPlugin.Service.Silence.{Reach-IsSilent}

-- Every text is an address.
abbrev ten : Bytes → Option Ip
ten text = some (record { a = 10; b = 7; c = 0; d = 3 })

abbrev shown : Ip → Bytes
shown ip = []

abbrev no_number : Bytes → Option ℤ
no_number text = none

abbrev home : Connection
home =
    (
      vpn_group,
      (
        data_key,
        string_map (
            (key_name Key.server_addr, 115 ∷ [])
            ∷ (key_name Key.server_public_key, 107 ∷ [])
            ∷ (key_name Key.tun_addr, 49 ∷ [])
            ∷ []),
      )
          ∷ (secrets_key, string_map ((private_key_name, 112 ∷ []) ∷ []))
          ∷ [],
    )
    ∷ []

abbrev fine : Attempt
fine = record { created = none; encoded = none; launched = none }

abbrev up : World
up = (connect no_number fine home start).0

abbrev ending : World
ending = disconnect up

abbrev device_there : Seen
device_there = record { timer = true; found = true; late = false }

abbrev watches : World → World
watches w = watch ten shown no_number device_there 0 w

Reach-IsSound_example : IsSound ending
unfolding connect requested find extract_string_map build_client_config emit_state
Reach-IsSound_example =
    Reach-IsSound ten shown no_number {May = λ w. Unit}
      (next (next here refl (connecting fine home tt)) refl disconnecting)

up_not_stopping : up.plugin.state ≡ starting
unfolding connect requested find extract_string_map build_client_config emit_state
up_not_stopping = refl

Reach-IsTidy_example : IsTidy ending
unfolding connect requested find extract_string_map build_client_config emit_state
Reach-IsTidy_example =
    Reach-IsTidy ten shown no_number
      (next (next here refl (connecting fine home (λ q. absurd (ground arith)))) refl disconnecting)

-- The watcher of the session was in its loop when Disconnect came.
ending-IsSilent : IsSilent 0 ending
unfolding connect requested find extract_string_map build_client_config emit_state disconnect
ending-IsSilent = record {
  cancelled = refl;
  known = ground arith;
  early = λ x h. let at_select : selecting ≡ x.phase = ground arith in subst Early at_select tt;
}

Reach-IsSilent_example :
    IsSilent 0 (watches ending)
    × SendsOnlyQuiet (watches ending) (watch ten shown no_number device_there 0 (watches ending))
unfolding connect requested find extract_string_map build_client_config emit_state disconnect
Reach-IsSilent_example =
    Reach-IsSilent ten shown no_number {May = λ w. Unit} device_there ending-IsSilent
      (next here refl (watching device_there 0))

abbrev gone : Process
gone = record { config_file = 0; signalled = true; exited = true }

-- A second Connect while the first session is being stopped: when the first process has gone, the
-- second session's file is removed and its process forgotten, and the first one's file is left.
abbrev overlapped : World
overlapped = reap 0 (exits 0 gone (connect no_number fine home ending).0)

overlapped_lem :
    (overlapped.files ≡ 0 ∷ [])
    × (overlapped.plugin.proc ≡ none)
    × (overlapped.plugin.state ≡ stopped)
    × (lookup 1 overlapped.processes
        ≡ some (record { config_file = 1; signalled = false; exited = false }))
unfolding connect requested find extract_string_map build_client_config emit_state disconnect reap
    cleanup
overlapped_lem = (refl, refl, refl, refl)

-- Disconnect between the watcher's two signals: Started follows Stopped.
abbrev late : World
late = watches (watches (reap 0 (exits 0 gone (disconnect (watches (watches (watches up)))))))

late_lem : (late.plugin.state ≡ started) × (late.plugin.proc ≡ none)
unfolding connect requested find extract_string_map build_client_config emit_state disconnect reap
    cleanup watch addresses derive_gateway
late_lem = (refl, refl)
