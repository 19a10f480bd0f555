-- ===== src/Base/Words.antt =====
-- Bytes and the big-endian words of Go's encoding/binary. A byte is a number below 256; a word
-- keeps its range as a hypothesis.
use Prim.Native.Nat.{ℕ, ◌+◌, ◌*◌, ◌/◌, ◌%◌, ◌^◌, ◌<◌}
use mathlib.Core.Path.{◌≡◌, refl}
use mathlib.Core.Bool.{Bool, true, false, ◌&&◌}
use ghost_vpn.Base.Tests.{◌==◌}
use mathlib.Core.List.{List, [], ◌∷◌}
use native.Mathlib.Omega.{arith}
use ghost_vpn.Base.Lists.{All}

abbrev pub Bytes : Type 0
Bytes = List ℕ

abbrev pub IsByte : ℕ → Type 0
IsByte b = b < 256

abbrev pub AreBytes : Bytes → Type 0
AreBytes = All IsByte

-- `binary.BigEndian.PutUint16` and `Uint16`.
abbrev pub put_uint16 : ℕ → Bytes
put_uint16 n = (n / 256 % 256) ∷ (n % 256) ∷ []

abbrev pub uint16 : ℕ → ℕ → ℕ
uint16 a b = a * 256 + b

-- `binary.BigEndian.PutUint32` and `Uint32`.
abbrev pub put_uint32 : ℕ → Bytes
put_uint32 n = (n / 2 ^ 24 % 256) ∷ (n / 2 ^ 16 % 256) ∷ (n / 256 % 256) ∷ (n % 256) ∷ []

abbrev pub uint32 : ℕ → ℕ → ℕ → ℕ → ℕ
uint32 a b c d = a * 2 ^ 24 + b * 2 ^ 16 + c * 256 + d

pub uint16-put : (n : ℕ) → n < 2 ^ 16 → uint16 (n / 256 % 256) (n % 256) ≡ n
uint16-put n h = omega arith

pub uint32-put :
    (n : ℕ)
    → n < 2 ^ 32
    → uint32 (n / 2 ^ 24 % 256) (n / 2 ^ 16 % 256) (n / 256 % 256) (n % 256) ≡ n
uint32-put n h = omega arith

-- Go's `==` on strings, which are sequences of bytes.
abbrev pub same : Bytes → Bytes → Bool
same [] [] = true
same [] (y ∷ ys) = false
same (x ∷ xs) [] = false
same (x ∷ xs) (y ∷ ys) = x == y && same xs ys

pub same_lem : (xs ys : Bytes) → same xs ys ≡ true → xs ≡ ys
same_lem [] [] h = refl
same_lem [] (y ∷ ys) h = absurd (ground arith)
same_lem (x ∷ xs) [] h = absurd (ground arith)
same_lem (x ∷ xs) (y ∷ ys) h = ground (arith, same_lem xs ys)

pub same_refl : (xs : Bytes) → same xs xs ≡ true
same_refl [] = refl
same_refl (x ∷ xs) = ground (arith, same_refl xs)
