-- ===== src/Server/Startup/Host.antt =====
-- cmd/ghost-server/main.go: what the actions of `main` change on the host.
use ghost_vpn.Base.{
  ℕ, ◌+◌, ◌-◌, ◌≡◌, refl, Bool, true, false, Option, none, some, List, [], ◌∷◌, map, Bytes, take,
}
use ghost_vpn.Io.{Error, Result, ok, err}
use ghost_vpn.Tun.Device.{
  Action, opens, runs, closes, Device, DeviceConfig, System, Command, add_nat, delete_nat,
  new_device, after_attach, after_nonblock, after_open, after_address, after_mtu, add_address,
  trim_zeros, set_mtu, ifnamsiz, after_set_up, disable_ipv6, set_up,
}
use ghost_vpn.Server.Startup.{
  Act, prints_version, sets_path, device, starts_router, serves, opens_listener, closes_listener,
}
use ghost_vpn.Startup.Ends.{after}

-- The masquerading rules of the subnet, whether the device and the listener are open, and whether a
-- command that was to delete a rule has failed.
pub record Host : Type 0 where
  pub rules : ℕ
  pub opened : Bool
  pub listening : Bool
  pub stuck : Bool

-- A rule is added where the command succeeds.
abbrev pub added : Option Error → ℕ
added none = 1
added (some e) = 0

-- A rule is deleted where the command succeeds, whose failure is ignored.
abbrev pub delete_rule : Option Error → Host → Host
delete_rule none h = record h { rules = h.rules - 1 }
delete_rule (some e) h = record h { stuck = true }

abbrev pub run_command : System → Command → Host → Host
run_command system (add_nat subnet) h = record h {
  rules = h.rules + added (system.running (add_nat subnet));
}
run_command system (delete_nat subnet) h = delete_rule (system.running (delete_nat subnet)) h
run_command system _ h = h

abbrev pub do_action : System → Action → Host → Host
do_action system opens h = record h { opened = true }
do_action system (runs c) h = run_command system c h
do_action system closes h = record h { opened = false }

abbrev pub do_act : {P : Type 0} → System → Act P → Host → Host
do_act system prints_version h = h
do_act system (sets_path p) h = h
do_act system (device a) h = do_action system a h
do_act system starts_router h = h
do_act system (serves k cs u p ln) h = h
do_act system opens_listener h = record h { listening = true }
do_act system closes_listener h = record h { listening = false }

-- Creating the device changes no rule, and leaves it open or not as it ends.
abbrev pub is_ok : {A : Type 0} → Result A → Bool
is_ok (ok a) = true
is_ok (err e) = false

module _ (P : Type 0) (system : System) (c : DeviceConfig) (n : ℕ) where
  abbrev pub IsCounted : List Action × Result Device → Type 0
  IsCounted (actions, got) =
      after (do_act {P = P} system) (map device actions)
        (record { rules = n; opened = false; listening = false; stuck = false })
      ≡ record { rules = n; opened = is_ok got; listening = false; stuck = false }

  after_mtu-IsCounted :
      (d : Device) (ended : Option Error)
      → IsCounted (
          after_mtu system
            (opens ∷ runs (add_address c.address d.name) ∷ runs (set_mtu d.name c.mtu) ∷ [])
            d
            ended)
  after_mtu-IsCounted d (some e) = refl
  after_mtu-IsCounted d none = set_up_ends (system.running (set_up d.name))
    where
      set_up_ends :
          (ended : Option Error)
          → IsCounted (
              after_set_up
                (opens
                  ∷ runs (add_address c.address d.name)
                  ∷ runs (set_mtu d.name c.mtu)
                  ∷ runs (disable_ipv6 d.name)
                  ∷ runs (set_up d.name)
                  ∷ [])
                d
                ended)
      set_up_ends (some e) = refl
      set_up_ends none = refl

  after_address-IsCounted :
      (d : Device) (ended : Option Error) → IsCounted (after_address system c d ended)
  after_address-IsCounted d (some e) = refl
  after_address-IsCounted d none = after_mtu-IsCounted d (system.running (set_mtu d.name c.mtu))

  after_nonblock-IsCounted :
      (name : Bytes) (ended : Option Error) → IsCounted (after_nonblock system c name ended)
  after_nonblock-IsCounted name (some e) = refl
  after_nonblock-IsCounted name none =
      after_address-IsCounted (record { name = trim_zeros name; mtu = c.mtu })
        (system.running (add_address c.address (trim_zeros name)))

  after_attach-IsCounted : (got : Result Bytes) → IsCounted (after_attach system c got)
  after_attach-IsCounted (err e) = refl
  after_attach-IsCounted (ok name) = after_nonblock-IsCounted name system.nonblock

  after_open-IsCounted : (ended : Option Error) → IsCounted (after_open system c ended)
  after_open-IsCounted (some e) = refl
  after_open-IsCounted none = after_attach-IsCounted (system.attaching (take ifnamsiz c.name))

  pub new_device-IsCounted : IsCounted (new_device system c)
  unfolding new_device
  new_device-IsCounted = after_open-IsCounted system.opening

-- What no run comes to.
abbrev pub Never : {A : Type 0} → Host → A → Type 0
Never h a = ⊥
