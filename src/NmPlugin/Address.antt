-- ===== src/NmPlugin/Address.antt =====
-- nm-plugin/plugin.go: the addresses of the plugin's signals. `net.ParseIP` with `To4`, and `String`,
-- are parameters.
use ghost_vpn.Base.{
  ℕ, ◌+◌, ◌-◌, ◌*◌, ◌%◌, ◌^◌, ◌<◌, ◌≡◌, ◌≢◌, Option, none, some, List, [], ◌∷◌, Bytes, ◌==◌,
  if◌then◌else◌, arith,
}
use ghost_vpn.Io.{ℤ, pos, negsuc}
use ghost_vpn.NmPlugin.Settings.{trim_space}

-- The four bytes of an IPv4 address.
pub record Ip : Type 0 where
  pub a : ℕ
  pub b : ℕ
  pub c : ℕ
  pub d : ℕ

pub record AreBytes (ip : Ip) : Type 0 where
  pub a : ip.a < 256
  pub b : ip.b < 256
  pub c : ip.c < 256
  pub d : ip.d < 256

-- `binary.LittleEndian.Uint32`
unfoldable pub little_endian : Ip → ℕ
little_endian ip = ip.a + ip.b * 2 ^ 8 + ip.c * 2 ^ 16 + ip.d * 2 ^ 24

-- `strings.Cut` at a byte: what is before it, and what is after it, or "".
abbrev pub cut : ℕ → Bytes → Bytes × Bytes
cut sep [] = ([], [])
cut sep (b ∷ bs) =
    let (before, after) = cut sep bs in if b == sep then ([], bs) else (b ∷ before, after)

-- `uint32(n)`
abbrev to_uint32 : ℤ → ℕ
to_uint32 (pos n) = n % 2 ^ 32
to_uint32 (negsuc n) = 2 ^ 32 - 1 - n % 2 ^ 32

-- The prefix length that is announced: 24 where the text is no number.
unfoldable pub prefix_of : Option ℤ → ℕ
prefix_of none = 24
prefix_of (some n) = to_uint32 n

abbrev pub gateway_of : Ip → Ip
gateway_of ip = record ip { d = if ip.d == 1 then 2 else 1 }

module _ (to4 : Bytes → Option Ip) where
  -- `deriveGateway`; `show` is `String`.
  unfoldable pub derive_gateway : (show : Ip → Bytes) → Bytes → Bytes
  derive_gateway show addr = elim (to4 addr) [ none ↦ addr | some ip ↦ show (gateway_of ip) ]

  -- `parseDNS`
  unfoldable pub parse_dns : List Bytes → List ℕ
  parse_dns [] = []
  parse_dns (x ∷ xs) =
      let rest = parse_dns xs in
      elim (to4 (trim_space x)) [ none ↦ rest | some ip ↦ little_endian ip ∷ rest ]

-- The gateway that is announced for an IPv4 address is another address of the same /24 network,
-- where `String` prints what `net.ParseIP` reads back.
pub derive_gateway-neighbour :
    (to4 : Bytes → Option Ip) (show : Ip → Bytes) (addr : Bytes) (ip : Ip)
    → ((x : Ip) → AreBytes x → to4 (show x) ≡ some x)
    → AreBytes ip
    → to4 addr ≡ some ip
    → (gw : Ip) × (to4 (derive_gateway to4 show addr) ≡ some gw)
      × (little_endian gw % 2 ^ 24 ≡ little_endian ip % 2 ^ 24)
      × (little_endian gw ≢ little_endian ip)
      × (little_endian gw < 2 ^ 32)
unfolding derive_gateway little_endian
derive_gateway-neighbour to4 show addr ip reads bytes h = (
  gateway_of ip,
  ground (arith, reads (gateway_of ip), bytes, h),
  ground (arith, bytes),
  ground (arith, bytes),
  ground (arith, bytes),
)
