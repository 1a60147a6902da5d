-- ===== src/Prelude/Int.antt =====
-- Signed integers over the native numbers, under the library's names (its ℤ stands on another ℕ),
-- and the two's complement of an `i32`.
use Prim.Native.Nat.{ℕ, suc, ◌+◌, ◌-◌, ◌*◌, ◌/◌, ◌%◌, ◌^◌, ◌≤◌, ◌<◌}
use mathlib.Core.Path.{◌≡◌}
use native.Mathlib.Omega.{arith}
use provii_crypto.Prelude.Tests.{ltb, if◌then◌else◌}

-- `negsuc n` is -(n + 1).
pub data ℤ : Type 0 where
  pos : ℕ → ℤ
  negsuc : ℕ → ℤ

abbrev pub pos_part : ℤ → ℕ
pos_part (pos n) = n
pos_part (negsuc n) = 0

abbrev pub neg_part : ℤ → ℕ
neg_part (pos n) = 0
neg_part (negsuc n) = suc n

infix 50 ◌≤ℤ◌
abbrev pub ◌≤ℤ◌ : ℤ → ℤ → Type 0
a ≤ℤ b = pos_part a + neg_part b ≤ pos_part b + neg_part a

-- The values of an `i32`.
abbrev pub IsI32 : ℤ → Type 0
IsI32 a = (pos_part a < 2 ^ 31) × (neg_part a ≤ 2 ^ 31)

-- The 32-bit pattern of an `i32`, and the `i32` of a pattern.
abbrev pub to_bits32 : ℤ → ℕ
to_bits32 (pos n) = n
to_bits32 (negsuc n) = 2 ^ 32 - suc n

abbrev pub of_bits32 : ℕ → ℤ
of_bits32 w = if ltb w (2 ^ 31) then pos w else negsuc (2 ^ 32 - w - 1)

pub of_bits32-to_bits32 : (a : ℤ) → IsI32 a → of_bits32 (to_bits32 a) ≡ a
of_bits32-to_bits32 (pos n) h = ground arith
of_bits32-to_bits32 (negsuc n) h = ground arith

-- The same for an `i64`.
abbrev pub IsI64 : ℤ → Type 0
IsI64 a = (pos_part a < 2 ^ 63) × (neg_part a ≤ 2 ^ 63)

abbrev pub to_bits64 : ℤ → ℕ
to_bits64 (pos n) = n
to_bits64 (negsuc n) = 2 ^ 64 - suc n

pub to_bits32-lt : (a : ℤ) → IsI32 a → to_bits32 a < 2 ^ 32
to_bits32-lt (pos n) h = omega arith
to_bits32-lt (negsuc n) h = omega arith

pub to_bits32_inj : (a b : ℤ) → IsI32 a → IsI32 b → to_bits32 a ≡ to_bits32 b → a ≡ b
to_bits32_inj a b ha hb e = ground arith

pub to_bits64-lt : (a : ℤ) → IsI64 a → to_bits64 a < 2 ^ 64
to_bits64-lt (pos n) h = omega arith
to_bits64-lt (negsuc n) h = omega arith

pub to_bits64_inj : (a b : ℤ) → IsI64 a → IsI64 b → to_bits64 a ≡ to_bits64 b → a ≡ b
to_bits64_inj a b ha hb e = ground arith

-- The integer a - b, and the operations that the sources use on `i64`: the sum, the difference and
-- the product by a natural number.
abbrev pub sub_ℕ : ℕ → ℕ → ℤ
sub_ℕ a b = if ltb a b then negsuc (b - a - 1) else pos (a - b)

infixl 60 ◌+ℤ◌ ◌-ℤ◌
abbrev pub ◌+ℤ◌ : ℤ → ℤ → ℤ
a +ℤ b = sub_ℕ (pos_part a + pos_part b) (neg_part a + neg_part b)

abbrev pub ◌-ℤ◌ : ℤ → ℤ → ℤ
a -ℤ b = sub_ℕ (pos_part a + neg_part b) (neg_part a + pos_part b)

infixl 70 ◌*ℤ◌
abbrev pub ◌*ℤ◌ : ℤ → ℕ → ℤ
a *ℤ k = sub_ℕ (pos_part a * k) (neg_part a * k)

-- Division by a positive number: `div_euclid` and `rem_euclid` round down, `/` towards 0.
abbrev pub div_euclid : ℤ → ℕ → ℤ
div_euclid (pos n) k = pos (n / k)
div_euclid (negsuc n) k = negsuc (n / k)

abbrev pub rem_euclid : ℤ → ℕ → ℕ
rem_euclid (pos n) k = n % k
rem_euclid (negsuc n) k = k - 1 - n % k

infixl 70 ◌/ℤ◌
abbrev pub ◌/ℤ◌ : ℤ → ℕ → ℤ
pos n /ℤ k = pos (n / k)
negsuc n /ℤ k = sub_ℕ 0 (suc n / k)
