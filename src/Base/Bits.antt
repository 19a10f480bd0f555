-- ===== src/Base/Bits.antt =====
-- Binary digits of a number: what Go's `|`, `&` and `<<` on unsigned words do to each of them.
use Prim.Native.Nat.{
  ℕ, zero, suc, ◌+◌, ◌-◌, ◌*◌, ◌/◌, ◌%◌, ◌^◌, ◌≤◌, ◌<◌, min, max, bit_and, bit_or, digits, bitwise,
  bit_and-bitwise, bit_or-bitwise,
}
use mathlib.Core.Path.{◌≡◌, refl, ap, ap₂, ◌∙◌}
use native.Mathlib.Nat.{pow-suc, le_refl}
use native.Mathlib.Decide.{ℕ_discrete}
use native.Mathlib.Omega.{arith}
use ghost_vpn.Base.Tests.{ltb, ◌==◌, if◌then◌else◌}

-- Digit `i` of `b`, the lowest first.
abbrev pub digit : ℕ → ℕ → ℕ
digit b zero = b % 2
digit b (suc i) = digit (b / 2) i

module _ (z : ℕ → ℕ) (f : ℕ → ℕ → ℕ) where
  enough_digits : (n m a b : ℕ) → a ≤ n → a ≤ m → digits z f n a b ≡ digits z f m a b
  enough_digits zero zero a b h k = refl
  enough_digits (suc n) zero zero b h k = refl
  enough_digits zero (suc m) zero b h k = refl
  enough_digits (suc n) (suc m) zero b h k = refl
  enough_digits zero (suc m) (suc a) b h k = absurd (omega arith)
  enough_digits (suc n) zero (suc a) b h k = absurd (omega arith)
  enough_digits (suc n) (suc m) (suc a) b h k =
      ap (λ (t : ℕ). t * 2 + f (suc a % 2) (b % 2))
        (enough_digits n m (suc a / 2) (b / 2) (omega arith) (omega arith))

  bitwise_split :
      (a b : ℕ)
      → bitwise z f (suc a) b ≡ bitwise z f (suc a / 2) (b / 2) * 2 + f (suc a % 2) (b % 2)
  bitwise_split a b =
      ap (λ (t : ℕ). t * 2 + f (suc a % 2) (b % 2))
        (enough_digits a (suc a / 2) (suc a / 2) (b / 2) (omega arith) (omega arith))

bit_or_split : (a b : ℕ) → bit_or a b ≡ bit_or (a / 2) (b / 2) * 2 + max (a % 2) (b % 2)
bit_or_split zero b = omega (arith, bit_or-bitwise 0 b, bit_or-bitwise 0 (b / 2))
bit_or_split (suc a) b = omega (
  arith,
  bit_or-bitwise (suc a) b,
  bit_or-bitwise (suc a / 2) (b / 2),
  bitwise_split (λ y. y) max a b,
)

bit_and_split : (a b : ℕ) → bit_and a b ≡ bit_and (a / 2) (b / 2) * 2 + min (a % 2) (b % 2)
bit_and_split zero b = omega (arith, bit_and-bitwise 0 b, bit_and-bitwise 0 (b / 2))
bit_and_split (suc a) b = omega (
  arith,
  bit_and-bitwise (suc a) b,
  bit_and-bitwise (suc a / 2) (b / 2),
  bitwise_split (λ y. 0) min a b,
)

pub digit-bit_or : (i a b : ℕ) → digit (bit_or a b) i ≡ max (digit a i) (digit b i)
digit-bit_or zero a b = omega (arith, bit_or_split a b)
digit-bit_or (suc i) a b =
    ap (λ (t : ℕ). digit t i) {x = bit_or a b / 2} {y = bit_or (a / 2) (b / 2)}
      (omega (arith, bit_or_split a b))
    ∙ digit-bit_or i (a / 2) (b / 2)

pub digit-bit_and : (i a b : ℕ) → digit (bit_and a b) i ≡ min (digit a i) (digit b i)
digit-bit_and zero a b = omega (arith, bit_and_split a b)
digit-bit_and (suc i) a b =
    ap (λ (t : ℕ). digit t i) {x = bit_and a b / 2} {y = bit_and (a / 2) (b / 2)}
      (omega (arith, bit_and_split a b))
    ∙ digit-bit_and i (a / 2) (b / 2)

pub digit-zero : (i : ℕ) → digit 0 i ≡ 0
digit-zero zero = refl
digit-zero (suc i) = digit-zero i

pub digit-le_one : (i b : ℕ) → digit b i ≤ 1
digit-le_one zero b = omega arith
digit-le_one (suc i) b = digit-le_one i (b / 2)

half_pow : (d : ℕ) → 2 ^ suc d / 2 ≡ 2 ^ d
half_pow d = omega (arith, pow-suc 2 d)

pub digit-pow : (d i : ℕ) → digit (2 ^ d) i ≡ (if i == d then 1 else 0)
digit-pow zero zero = refl
digit-pow zero (suc i) = ground (arith, digit-zero i)
digit-pow (suc d) zero = ground (arith, pow-suc 2 d)
digit-pow (suc d) (suc i) = ap (λ (t : ℕ). digit t i) (half_pow d) ∙ ground (arith, digit-pow d i)

digit_index : (b i j : ℕ) → i ≡ j → digit b i ≡ digit b j
digit_index b i j e = ap (digit b) e

digit_number : (i a b : ℕ) → a ≡ b → digit a i ≡ digit b i
digit_number i a b e = ap (λ (t : ℕ). digit t i) e

pub digit-shift : (s i b : ℕ) → digit (b * 2 ^ s) i ≡ (if ltb i s then 0 else digit b (i - s))
digit-shift zero i b =
    ground (arith, digit_number i (b * 1) b (omega arith), digit_index b i (i - 0) (omega arith))
digit-shift (suc s) zero b = ground (arith, ap (λ (t : ℕ). b * t) (pow-suc 2 s))
digit-shift (suc s) (suc i) b =
    digit_number i (b * 2 ^ suc s / 2) (b * 2 ^ s)
      (omega (arith, ap (λ (t : ℕ). b * t) (pow-suc 2 s)))
    ∙ (digit-shift s i b ∙ ground (arith, digit_index b (i - s) (suc i - suc s) (omega arith)))

half_mod : (x m : ℕ) → 0 < m → x % (m * 2) / 2 ≡ x / 2 % m
half_mod x m h = grind arith

even_mod : (x m : ℕ) → 0 < m → x % (m * 2) % 2 ≡ x % 2
even_mod x m h = grind arith

pow_pos : (k : ℕ) → 0 < 2 ^ k
pow_pos zero = omega arith
pow_pos (suc k) = omega (arith, pow-suc 2 k, pow_pos k)

-- A word of `k` bits keeps the lowest `k` digits.
pub digit-mod : (k i x : ℕ) → i < k → digit (x % 2 ^ k) i ≡ digit x i
digit-mod zero i x h = absurd (omega arith)
digit-mod (suc k) zero x h = rw (pow-suc 2 k) (even_mod x (2 ^ k) (pow_pos k))
digit-mod (suc k) (suc i) x h =
    digit_number i (x % 2 ^ suc k / 2) (x / 2 % 2 ^ k)
      (rw (pow-suc 2 k) (half_mod x (2 ^ k) (pow_pos k)))
    ∙ digit-mod k i (x / 2) (omega arith)

-- Past the width of a word there is no digit.
pub digit_above : (k i x : ℕ) → x < 2 ^ k → k ≤ i → digit x i ≡ 0
digit_above zero i x h le = digit_number i x 0 (omega arith) ∙ digit-zero i
digit_above (suc k) zero x h le = absurd (omega arith)
digit_above (suc k) (suc i) x h le =
    digit_above k i (x / 2) (omega (arith, pow-suc 2 k)) (omega arith)

zero_of_digits : (n x : ℕ) → x ≤ n → ((i : ℕ) → digit x i ≡ 0) → x ≡ 0
zero_of_digits zero x h d = omega arith
zero_of_digits (suc n) x h d =
    omega (arith, d 0, zero_of_digits n (x / 2) (omega arith) (λ i. d (suc i)))

bit_and-pow_zero : (d x : ℕ) → digit x d ≡ 0 → (i : ℕ) → digit (bit_and x (2 ^ d)) i ≡ 0
bit_and-pow_zero d x p i =
    ground (arith, digit-bit_and i x (2 ^ d), digit-pow d i, digit-le_one i x, digit_index x i d)

-- `x & (1 << d)` is zero exactly if digit `d` of `x` is.
pub bit_and-pow : (d x : ℕ) → (bit_and x (2 ^ d) == 0) ≡ (digit x d == 0)
bit_and-pow d x = elim (ℕ_discrete (digit x d) 0) [
  | yes p ↦ ground (
    arith,
    zero_of_digits (bit_and x (2 ^ d)) (bit_and x (2 ^ d)) (le_refl (bit_and x (2 ^ d)))
        (bit_and-pow_zero d x p),
  )
  | no p ↦ ground (
    arith,
    digit-bit_and d x (2 ^ d),
    digit-pow d d,
    digit-le_one d x,
    digit-zero d,
    digit_number d (bit_and x (2 ^ d)) 0,
  )
]

-- `x | (1 << d)` sets digit `d` and keeps the others.
pub bit_or-pow : (d i x : ℕ) → digit (bit_or x (2 ^ d)) i ≡ (if i == d then 1 else digit x i)
bit_or-pow d i x = ground (arith, digit-bit_or i x (2 ^ d), digit-pow d i, digit-le_one i x)

-- Two words of `k` bits make a word of `k` bits.
pub bit_or-lt : (k a b : ℕ) → a < 2 ^ k → b < 2 ^ k → bit_or a b < 2 ^ k
bit_or-lt zero a b h h' =
    omega (arith, bit_or_split a b, bit_or-lt_zero (a / 2) (b / 2) (omega arith) (omega arith))
  where
    bit_or-lt_zero : (a b : ℕ) → a ≡ 0 → b ≡ 0 → bit_or a b ≡ 0
    bit_or-lt_zero a b p q = ap₂ bit_or p q
bit_or-lt (suc k) a b h h' = omega (
  arith,
  bit_or_split a b,
  pow-suc 2 k,
  bit_or-lt k (a / 2) (b / 2) (omega (arith, pow-suc 2 k)) (omega (arith, pow-suc 2 k)),
)

pub pow_mono : (d k : ℕ) → d < k → 2 ^ d < 2 ^ k
pow_mono d zero h = absurd (omega arith)
pow_mono zero (suc k) h = omega (arith, pow-suc 2 k, pow_pos k)
pow_mono (suc d) (suc k) h = omega (arith, pow-suc 2 k, pow-suc 2 d, pow_mono d k (omega arith))
