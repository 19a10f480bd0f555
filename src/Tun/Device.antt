-- ===== src/Tun/Device.antt =====
-- internal/tun/device.go: creating and configuring the TUN device. The operating system is a parameter:
-- what opening the device gives, and what each command ends with. A command is its words.
use ghost_vpn.Base.{
  ℕ, take, ◌≡◌, refl, Bool, true, false, Option, none, some, List, [], ◌∷◌, ◌++◌, Bytes,
  if◌then◌else◌, ◌==◌,
}
use ghost_vpn.Io.{ℤ, Error, tun_open, tun_iff, tun_nonblock, tun_command, Result, ok, err}

-- The commands, by what they do; `number` of an MTU is its text.
pub data Command : Type 0 where
  add_address : (addr name : Bytes) → Command
  set_mtu : (name : Bytes) (mtu : ℤ) → Command
  disable_ipv6 : (name : Bytes) → Command
  set_up : (name : Bytes) → Command
  add_route : (cidr name : Bytes) → Command
  ip_forward : Command
  add_nat : (subnet : Bytes) → Command
  delete_nat : (subnet : Bytes) → Command

-- What the program does with the device: it opens it, runs commands, and closes it.
pub data Action : Type 0 where
  opens : Action
  runs : Command → Action
  closes : Action

pub record DeviceConfig : Type 0 where
  pub name : Bytes
  pub address : Bytes
  pub mtu : ℤ

-- `Device`, without its file.
pub record Device : Type 0 where
  pub name : Bytes
  pub mtu : ℤ

-- `unix.Open`, the ioctl with the name that it assigns, and `SetNonblock`.
pub record System : Type 0 where
  pub opening : Option Error
  pub attaching : Bytes → Result Bytes
  pub nonblock : Option Error
  pub running : Command → Option Error

-- const IFNAMSIZ; the name is copied into an array of that size.
abbrev pub ifnamsiz : ℕ
ifnamsiz = 16

-- `strings.TrimRight(name, "\x00")`
abbrev cons_trimmed : ℕ → Bytes → Bytes
cons_trimmed b [] = if b == 0 then [] else b ∷ []
cons_trimmed b (c ∷ cs) = b ∷ c ∷ cs

abbrev pub trim_zeros : Bytes → Bytes
trim_zeros [] = []
trim_zeros (b ∷ bs) = let rest = trim_zeros bs in cons_trimmed b rest

-- The commands of `New`, with those that have run.
abbrev pub after_set_up : List Action → Device → Option Error → List Action × Result Device
after_set_up done d (some e) = (done ++ closes ∷ [], err (tun_command e))
after_set_up done d none = (done, ok d)

abbrev pub after_mtu : System → List Action → Device → Option Error → List Action × Result Device
after_mtu system done d (some e) = (done ++ closes ∷ [], err (tun_command e))
after_mtu system done d none =
    after_set_up (done ++ runs (disable_ipv6 d.name) ∷ runs (set_up d.name) ∷ []) d
      (system.running (set_up d.name))

abbrev pub after_address :
    System → DeviceConfig → Device → Option Error → List Action × Result Device
after_address system c d (some e) =
    (opens ∷ runs (add_address c.address d.name) ∷ closes ∷ [], err (tun_command e))
after_address system c d none =
    after_mtu system
      (opens ∷ runs (add_address c.address d.name) ∷ runs (set_mtu d.name c.mtu) ∷ []) d
      (system.running (set_mtu d.name c.mtu))

abbrev pub configured : System → DeviceConfig → Device → List Action × Result Device
configured system c d = after_address system c d (system.running (add_address c.address d.name))

abbrev pub after_nonblock :
    System → DeviceConfig → Bytes → Option Error → List Action × Result Device
after_nonblock system c name (some e) = (opens ∷ closes ∷ [], err (tun_nonblock e))
after_nonblock system c name none =
    configured system c (record { name = trim_zeros name; mtu = c.mtu })

abbrev pub after_attach : System → DeviceConfig → Result Bytes → List Action × Result Device
after_attach system c (err e) = (opens ∷ closes ∷ [], err (tun_iff e))
after_attach system c (ok name) = after_nonblock system c name system.nonblock

abbrev pub after_open : System → DeviceConfig → Option Error → List Action × Result Device
after_open system c (some e) = ([], err (tun_open e))
after_open system c none = after_attach system c (system.attaching (take ifnamsiz c.name))

-- `New`
unfoldable pub new_device : System → DeviceConfig → List Action × Result Device
new_device system c = after_open system c system.opening

-- `AddRoute`, `EnableIPForward`, `SetupNAT` and `CleanupNAT`; the last does not look at the error.
abbrev checked : Option Error → Option Error
checked none = none
checked (some e) = some (tun_command e)

unfoldable pub add_route_to : System → Bytes → Device → Option Error
add_route_to system cidr d = checked (system.running (add_route cidr d.name))

unfoldable pub enable_ip_forward : System → Option Error
enable_ip_forward system = checked (system.running ip_forward)

unfoldable pub setup_nat : System → Bytes → Option Error
setup_nat system subnet = checked (system.running (add_nat subnet))

unfoldable pub cleanup_nat : System → Bytes → List Action × Option Error
cleanup_nat system subnet = (runs (delete_nat subnet) ∷ [], none)

-- Whether the device is open after these actions.
abbrev pub is_open : Bool → List Action → Bool
is_open now [] = now
is_open now (opens ∷ rest) = is_open true rest
is_open now (runs c ∷ rest) = is_open now rest
is_open now (closes ∷ rest) = is_open false rest

-- The device has the name that the system gave it, less the zero bytes at its end.
abbrev pub IsNamed : System → DeviceConfig → Device → Type 0
IsNamed system c d =
    (name : Bytes) × (system.attaching (take ifnamsiz c.name) ≡ ok name)
    × (d.name ≡ trim_zeros name)

-- What is true of an attempt.
abbrev pub Fits : System → DeviceConfig → List Action × Result Device → Type 0
Fits system c (actions, err e) = is_open false actions ≡ false
Fits system c (actions, ok d) =
    IsNamed system c d
    × (d.mtu ≡ c.mtu)
    × (actions
        ≡ opens
          ∷ runs (add_address c.address d.name)
          ∷ runs (set_mtu d.name c.mtu)
          ∷ runs (disable_ipv6 d.name)
          ∷ runs (set_up d.name)
          ∷ [])
    × (system.running (add_address c.address d.name) ≡ none)
    × (system.running (set_mtu d.name c.mtu) ≡ none)
    × (system.running (set_up d.name) ≡ none)

module _ (system : System) (c : DeviceConfig) where
  after_set_up-Fits :
      (d : Device) (ended : Option Error)
      → IsNamed system c d
      → d.mtu ≡ c.mtu
      → system.running (add_address c.address d.name) ≡ none
      → system.running (set_mtu d.name c.mtu) ≡ none
      → system.running (set_up d.name) ≡ ended
      → Fits system c (
          after_set_up
            (opens
              ∷ runs (add_address c.address d.name)
              ∷ runs (set_mtu d.name c.mtu)
              ∷ runs (disable_ipv6 d.name)
              ∷ runs (set_up d.name)
              ∷ [])
            d
            ended)
  after_set_up-Fits d (some e) named same a m u = refl
  after_set_up-Fits d none named same a m u = (named, same, refl, a, m, u)

  after_mtu-Fits :
      (d : Device) (ended : Option Error)
      → IsNamed system c d
      → d.mtu ≡ c.mtu
      → system.running (add_address c.address d.name) ≡ none
      → system.running (set_mtu d.name c.mtu) ≡ ended
      → Fits system c (
          after_mtu system
            (opens ∷ runs (add_address c.address d.name) ∷ runs (set_mtu d.name c.mtu) ∷ [])
            d
            ended)
  after_mtu-Fits d (some e) named same a m = refl
  after_mtu-Fits d none named same a m =
      after_set_up-Fits d (system.running (set_up d.name)) named same a m refl

  after_address-Fits :
      (d : Device) (ended : Option Error)
      → IsNamed system c d
      → d.mtu ≡ c.mtu
      → system.running (add_address c.address d.name) ≡ ended
      → Fits system c (after_address system c d ended)
  after_address-Fits d (some e) named same a = refl
  after_address-Fits d none named same a =
      after_mtu-Fits d (system.running (set_mtu d.name c.mtu)) named same a refl

  after_nonblock-Fits :
      (name : Bytes) (ended : Option Error)
      → system.attaching (take ifnamsiz c.name) ≡ ok name
      → Fits system c (after_nonblock system c name ended)
  after_nonblock-Fits name (some e) given = refl
  after_nonblock-Fits name none given =
      after_address-Fits (record { name = trim_zeros name; mtu = c.mtu })
        (system.running (add_address c.address (trim_zeros name))) (name, given, refl) refl refl

  after_attach-Fits :
      (got : Result Bytes)
      → system.attaching (take ifnamsiz c.name) ≡ got
      → Fits system c (after_attach system c got)
  after_attach-Fits (err e) given = refl
  after_attach-Fits (ok name) given = after_nonblock-Fits name system.nonblock given

  after_open-Fits : (ended : Option Error) → Fits system c (after_open system c ended)
  after_open-Fits (some e) = refl
  after_open-Fits none = after_attach-Fits (system.attaching (take ifnamsiz c.name)) refl

  -- However the creation of the device ends: on an error it is not left open; on success it has been
  -- given its address, its MTU, no IPv6 and been brought up, in that order and under the name that
  -- the system assigned for the first 16 bytes of the configured one, and each of these but the
  -- third has succeeded.
  pub new_device-Fits : Fits system c (new_device system c)
  unfolding new_device
  new_device-Fits = after_open-Fits system.opening
