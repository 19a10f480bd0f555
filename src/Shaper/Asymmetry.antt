-- ===== src/Shaper/Asymmetry.antt =====
-- internal/shaper/asymmetry.go: the ratio of bytes down to bytes up. The floating-point operations are
-- parameters; a counter is an atomic int64, kept as its 64 bits.
use ghost_vpn.Base.{ℕ, ◌+◌, ◌%◌, ◌^◌, Bool, ◌&&◌, ◌==◌, if◌then◌else◌}
use ghost_vpn.Io.{ℤ, pos, negsuc}

-- The operations on float64 that the enforcer uses. `of_int` reads the bits of an int64.
pub record Floats (F : Type 0) : Type 0 where
  pub of_int : ℕ → F
  pub add : F → F → F
  pub sub : F → F → F
  pub mul : F → F → F
  pub div : F → F → F
  pub less : F → F → Bool
  pub less_or_equal : F → F → Bool
  pub to_int : F → ℤ

-- `AsymmetryEnforcer`
pub record Enforcer (F : Type 0) : Type 0 where
  pub target_ratio : F
  pub up_bytes : ℕ
  pub down_bytes : ℕ

-- `if need < 0 { need = 0 }`
abbrev at_least_zero : ℤ → ℕ
at_least_zero (pos n) = n
at_least_zero (negsuc n) = 0

abbrev pub add_bytes : ℕ → ℕ → ℕ
add_bytes total n = (total + n) % 2 ^ 64

module _ {F : Type 0} where
  -- `RecordUp` and `RecordDown`, of a number of bytes that is not negative.
  unfoldable pub record_up : ℕ → Enforcer F → Enforcer F
  record_up n a = record a { up_bytes = add_bytes a.up_bytes n }

  unfoldable pub record_down : ℕ → Enforcer F → Enforcer F
  record_down n a = record a { down_bytes = add_bytes a.down_bytes n }

module _ {F : Type 0} (fl : Floats F) where
  -- `NewAsymmetryEnforcer`
  unfoldable pub new_enforcer : F → Enforcer F
  new_enforcer ratio = record {
    target_ratio = if fl.less_or_equal ratio (fl.of_int 0) then fl.of_int 5 else ratio;
    up_bytes = 0;
    down_bytes = 0;
  }

  -- `CurrentRatio`
  unfoldable pub current_ratio : Enforcer F → F
  current_ratio a =
      if a.up_bytes == 0
      then fl.of_int 0
      else fl.div (fl.of_int a.down_bytes) (fl.of_int a.up_bytes)

  -- What is missing below the target, and above it.
  abbrev pub missing_down : F → ℕ → ℕ → ℕ
  missing_down target up down =
      at_least_zero (fl.to_int (fl.sub (fl.mul target (fl.of_int up)) (fl.of_int down)))

  abbrev pub missing_up : F → ℕ → ℕ → ℕ
  missing_up target up down =
      at_least_zero (fl.to_int (fl.sub (fl.div (fl.of_int down) target) (fl.of_int up)))

  -- `PaddingNeeded`: bytes down, and bytes up.
  unfoldable pub padding_needed : F → Enforcer F → ℕ × ℕ
  padding_needed tolerance a =
      let ratio = fl.div (fl.of_int a.down_bytes) (fl.of_int a.up_bytes) in
      let low = fl.mul a.target_ratio (fl.sub (fl.of_int 1) tolerance) in
      let high = fl.mul a.target_ratio (fl.add (fl.of_int 1) tolerance) in
      if a.up_bytes == 0
      then (0, 0)
      else if fl.less_or_equal low ratio && fl.less_or_equal ratio high
      then (0, 0)
      else if fl.less ratio low
      then (missing_down a.target_ratio a.up_bytes a.down_bytes, 0)
      else (0, missing_up a.target_ratio a.up_bytes a.down_bytes)
