-- ===== src/Client/Rotation.antt =====
-- cmd/ghost-client/main.go: how long the rotation loop waits, in nanoseconds. An int64 is its 64 bits.
use ghost_vpn.Base.{
  ℕ, ◌+◌, ◌-◌, ◌*◌, ◌/◌, ◌%◌, ◌^◌, ◌<◌, ◌≤◌, ◌≡◌, Bool, Option, none, some, ltb, ◌==◌,
  if◌then◌else◌, arith,
}

-- time.Second
abbrev pub second : ℕ
second = 1000000000

abbrev pub wrap : ℕ → ℕ
wrap n = n % 2 ^ 64

abbrev pub is_negative : ℕ → Bool
is_negative n = ltb (2 ^ 63 - 1) n

-- `n / 10` on an int64, which rounds to zero.
abbrev pub tenth : ℕ → ℕ
tenth n = if is_negative n then wrap (2 ^ 64 - (2 ^ 64 - n) / 10) else n / 10

-- `wait` for a lifetime in seconds; `random n` is `mathrand.Int63n(n)`, which panics (none) unless `n`
-- is positive.
unfoldable pub rotation_wait : (random : ℕ → ℕ) → ℕ → Option ℕ
rotation_wait random lifetime =
    let base = wrap (lifetime * second) in
    let range = tenth (wrap (base * 6)) in
    if range == 0
    then none
    else if is_negative range
    then none
    else some (wrap (tenth (wrap (base * 7)) + random range))

range_of :
    (lifetime : ℕ)
    → lifetime ≤ 1317624576
    → tenth (wrap (wrap (lifetime * second) * 6)) ≡ lifetime * 600000000
range_of lifetime small = ground arith

least_of :
    (lifetime : ℕ)
    → lifetime ≤ 1317624576
    → tenth (wrap (wrap (lifetime * second) * 7)) ≡ lifetime * 700000000
least_of lifetime small = ground arith

wait_is :
    (random : ℕ → ℕ) (lifetime range least : ℕ)
    → tenth (wrap (wrap (lifetime * second) * 6)) ≡ range
    → tenth (wrap (wrap (lifetime * second) * 7)) ≡ least
    → 0 < range
    → range < 2 ^ 63
    → least + random range < 2 ^ 64
    → rotation_wait random lifetime ≡ some (least + random range)
unfolding rotation_wait
wait_is random lifetime range least r l positive small fits = rw (r, l) (ground arith)

-- For every lifetime of up to 41 years, the loop waits at least 7 tenths of it and less than 13.
pub rotation_wait_bounds :
    (random : ℕ → ℕ) (lifetime : ℕ)
    → ((n : ℕ) → 0 < n → random n < n)
    → 0 < lifetime
    → lifetime ≤ 1317624576
    → (wait : ℕ) × (rotation_wait random lifetime ≡ some wait)
      × (lifetime * second * 7 ≤ wait * 10)
      × (wait * 10 < lifetime * second * 13)
rotation_wait_bounds random lifetime below positive small =
    let range = lifetime * 600000000 in
    let drawn = below (lifetime * 600000000) (omega arith) in
    (
      lifetime * 700000000 + random (lifetime * 600000000),
      wait_is random lifetime (lifetime * 600000000) (lifetime * 700000000)
          (range_of lifetime small) (least_of lifetime small) (omega arith) (omega arith)
          (omega (arith, drawn)),
      omega arith,
      omega (arith, drawn),
    )
