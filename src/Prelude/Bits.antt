-- ===== src/Prelude/Bits.antt =====
-- Facts about `&`, `^` and `|` at variables: one equation for the lowest digit of each, a mask of
-- one bit as a remainder, and the flip of the top bit.
use Prim.Native.Nat.{ℕ, zero, suc, ◌+◌, ◌*◌, ◌/◌, ◌%◌, ◌^◌, ◌≤◌, ◌<◌, min, max}
use Prim.Native.Nat.{bit_and, bit_or, bit_xor, digits, bitwise, differ}
use Prim.Native.Nat.{bit_and-bitwise, bit_or-bitwise, bit_xor-bitwise}
use mathlib.Core.Path.{◌≡◌, refl}
use native.Mathlib.Nat.{le_refl, pow-suc}
use native.Mathlib.Omega.{arith}

module _ (rest : ℕ → ℕ) (op : ℕ → ℕ → ℕ) where
  digits_fuel :
      (fuel spare x y : ℕ)
      → x ≤ fuel
      → x ≤ spare
      → digits rest op fuel x y ≡ digits rest op spare x y
  digits_fuel zero zero x y hx hy = refl
  digits_fuel zero (suc spare) zero y hx hy = refl
  digits_fuel zero (suc spare) (suc x) y hx hy = absurd (omega arith)
  digits_fuel (suc fuel) zero zero y hx hy = refl
  digits_fuel (suc fuel) zero (suc x) y hx hy = absurd (omega arith)
  digits_fuel (suc fuel) (suc spare) zero y hx hy = refl
  digits_fuel (suc fuel) (suc spare) (suc x) y hx hy =
      omega (arith, digits_fuel fuel spare (suc x / 2) (y / 2) (omega arith) (omega arith))

  bitwise-suc :
      (x y : ℕ)
      → bitwise rest op (suc x) y ≡ bitwise rest op (suc x / 2) (y / 2) * 2 + op (suc x % 2) (y % 2)
  bitwise-suc x y =
      omega (arith, digits_fuel x (suc x / 2) (suc x / 2) (y / 2) (omega arith) (le_refl _))

pub bit_and_step : (x y : ℕ) → bit_and x y ≡ bit_and (x / 2) (y / 2) * 2 + min (x % 2) (y % 2)
bit_and_step zero y = simp bit_and-bitwise (omega arith)
bit_and_step (suc x) y = simp bit_and-bitwise (bitwise-suc (λ r. 0) min x y)

pub bit_or_step : (x y : ℕ) → bit_or x y ≡ bit_or (x / 2) (y / 2) * 2 + max (x % 2) (y % 2)
bit_or_step zero y = simp bit_or-bitwise (omega arith)
bit_or_step (suc x) y = simp bit_or-bitwise (bitwise-suc (λ r. r) max x y)

pub bit_xor_step : (x y : ℕ) → bit_xor x y ≡ bit_xor (x / 2) (y / 2) * 2 + differ (x % 2) (y % 2)
bit_xor_step zero y = simp bit_xor-bitwise (omega arith)
bit_xor_step (suc x) y = simp bit_xor-bitwise (bitwise-suc (λ r. r) differ x y)

pub bit_and-zero : (fuel x : ℕ) → x ≤ fuel → bit_and x 0 ≡ 0
bit_and-zero zero x h = let e : x ≡ 0 = omega arith in rw e
bit_and-zero (suc fuel) x h =
    ground (arith, bit_and_step x 0, λ (hx : x / 2 ≤ fuel). bit_and-zero fuel (x / 2) hx)

-- The mask of the lowest bit is the remainder by 2.
pub bit_and-one : (a : ℕ) → bit_and a 1 ≡ a % 2
bit_and-one a = omega (arith, bit_and_step a 1, bit_and-zero (a / 2) (a / 2) (le_refl _))

differ-zero : (a : ℕ) → differ a 0 ≡ a
differ-zero zero = refl
differ-zero (suc a) = refl

-- On a number of `k + 1` bits the flip of the top bit sets it when it is clear, and clears it when
-- it is set.
pub bit_xor_set_top : (k a : ℕ) → a < 2 ^ k → bit_xor a (2 ^ k) ≡ a + 2 ^ k
bit_xor_set_top zero zero h = refl
bit_xor_set_top zero (suc a) h = absurd (omega arith)
bit_xor_set_top (suc k) a h =
    let p : 2 ^ suc k ≡ 2 * 2 ^ k = omega (arith, pow-suc 2 k) in
    let q : 2 ^ suc k / 2 ≡ 2 ^ k = omega arith in
    let r : 2 ^ suc k % 2 ≡ 0 = omega arith in
    let s = bit_xor_set_top k (a / 2) (omega arith) in
    rw (bit_xor_step, q, r, s, differ-zero) (omega arith)

pub bit_xor_clear_top : (k a : ℕ) → 2 ^ k ≤ a → a < 2 ^ suc k → bit_xor a (2 ^ k) + 2 ^ k ≡ a
bit_xor_clear_top zero zero h l = absurd (omega arith)
bit_xor_clear_top zero (suc zero) h l = refl
bit_xor_clear_top zero (suc (suc a)) h l = absurd (omega arith)
bit_xor_clear_top (suc k) a h l =
    let p : 2 ^ suc k ≡ 2 * 2 ^ k = omega (arith, pow-suc 2 k) in
    let p' : 2 ^ suc (suc k) ≡ 2 * 2 ^ suc k = omega (arith, pow-suc 2 (suc k)) in
    let q : 2 ^ suc k / 2 ≡ 2 ^ k = omega arith in
    let r : 2 ^ suc k % 2 ≡ 0 = omega arith in
    let s = bit_xor_clear_top k (a / 2) (omega arith) (omega arith) in
    rw (bit_xor_step, q, r, differ-zero) (omega arith)

-- A number of `k` bits together with the bit above them.
pub bit_or_set_top : (k a : ℕ) → a < 2 ^ k → bit_or a (2 ^ k) ≡ a + 2 ^ k
bit_or_set_top zero zero h = refl
bit_or_set_top zero (suc a) h = absurd (omega arith)
bit_or_set_top (suc k) a h =
    let p : 2 ^ suc k ≡ 2 * 2 ^ k = omega (arith, pow-suc 2 k) in
    let q : 2 ^ suc k / 2 ≡ 2 ^ k = omega arith in
    let r : 2 ^ suc k % 2 ≡ 0 = omega arith in
    let s = bit_or_set_top k (a / 2) (omega arith) in rw (bit_or_step, q, r, s) (omega arith)
