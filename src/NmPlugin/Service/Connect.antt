-- ===== src/NmPlugin/Service/Connect.antt =====
-- nm-plugin/plugin.go: `Connect`.
use ghost_vpn.Base.{
  ℕ, ◌+◌, Bool, true, false, Option, none, some, List, ◌∷◌, Bytes, length, insert, ◌==◌,
  if◌then◌else◌, ◌⊎◌, inl, inr,
}
use ghost_vpn.Io.{ℤ, Error}
use ghost_vpn.Config.{ClientConfig, Loaded, loaded, refused, default_name}
use ghost_vpn.NmPlugin.Settings.{build_client_config}
use ghost_vpn.NmPlugin.Variant.{
  Section, find, text, member, map_or_empty, extract_string_map, vpn_group, data_key, secrets_key,
  private_key_name, key_name,
}
use ghost_vpn.NmPlugin.Service.{
  DbusError, ServiceState, World, already_connected, bad_data, bad_settings, emit_state,
  no_vpn_section, remove_file, selecting, start_client, started, starting, temp_config,
  write_config,
}

-- What `CreateTemp`, the encoder and `cmd.Start` return.
pub record Attempt : Type 0 where
  pub created : Option Error
  pub encoded : Option Error
  pub launched : Option Error

abbrev pub Connection : Type 0
Connection = List (Bytes × Section)

-- The configuration of a connection, or the error of `Connect`.
abbrev pub settled : Loaded ClientConfig → DbusError ⊎ ClientConfig
settled (refused m) = inl (bad_settings m)
settled (loaded c) = inr c

abbrev pub requested_data :
    (Bytes → Option ℤ) → Section → Option (List (Bytes × Bytes)) → DbusError ⊎ ClientConfig
requested_data atoi vpn none = inl bad_data
requested_data atoi vpn (some data_map) =
    let secrets = map_or_empty (extract_string_map (member secrets_key vpn)) in
    settled
      (build_client_config atoi (λ k. text (key_name k) data_map) (text private_key_name secrets))

abbrev pub requested_section : (Bytes → Option ℤ) → Option Section → DbusError ⊎ ClientConfig
requested_section atoi none = inl no_vpn_section
requested_section atoi (some vpn) =
    requested_data atoi vpn (extract_string_map (member data_key vpn))

unfoldable pub requested : (Bytes → Option ℤ) → Connection → DbusError ⊎ ClientConfig
requested atoi connection = requested_section atoi (find vpn_group connection)

-- `Connect` once the client runs: its file and process are both numbered `n`, as is the context.
abbrev pub running : ClientConfig → ℕ → World → World
running c n w = record w {
  watchers =
      insert n
        (record {
          process = n;
          tun_name = if length c.tun.name == 0 then default_name else c.tun.name;
          tun_addr = c.tun.address;
          dns = c.tun.dns;
          server_addr = c.server_addr;
          phase = selecting;
        })
        w.watchers;
  plugin = record w.plugin { cancel_watch = some n };
}

-- `Connect` from `cmd.Start` on, with the file written.
abbrev pub launch : Option Error → ClientConfig → ℕ → World → World × Option DbusError
launch (some e) c n w = (
  record w { plugin = record w.plugin { cfg_tmp = none }; files = remove_file n w.files },
  some (start_client e),
)
launch none c n w = (
  running c n (
      emit_state starting (record w {
        processes =
            insert n (record { config_file = n; signalled = false; exited = false }) w.processes;
        plugin = record w.plugin { proc = some n };
      })),
  none,
)

-- `Connect` from `CreateTemp` on.
abbrev pub write_file :
    (created encoded launched : Option Error) → ClientConfig → World → World × Option DbusError
write_file (some e) encoded launched c w = (w, some (temp_config e))
write_file none (some e) launched c w = (record w { next = w.next + 1 }, some (write_config e))
write_file none none launched c w = launch launched c w.next (record w {
  next = w.next + 1;
  files = w.next ∷ w.files;
  plugin = record w.plugin { cfg_tmp = some w.next };
})

abbrev pub is_up : ServiceState → Bool
is_up starting = true
is_up started = true
is_up _ = false

abbrev pub configured_connect :
    Attempt → DbusError ⊎ ClientConfig → World → World × Option DbusError
configured_connect a (inl e) w = (w, some e)
configured_connect a (inr c) w = write_file a.created a.encoded a.launched c w

-- `Connect` and `ConnectInteractive`
unfoldable pub connect :
    (Bytes → Option ℤ) → Attempt → Connection → World → World × Option DbusError
connect atoi a connection w =
    if is_up w.plugin.state
    then (w, some already_connected)
    else configured_connect a (requested atoi connection) w
