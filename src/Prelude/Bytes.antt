-- ===== src/Prelude/Bytes.antt =====
-- Bytes and their bits: `to_le_bytes` and `to_be_bytes` of Rust's integers, byte strings of ASCII
-- literals, and the lemmas that let an encoding be read back.
use Prim.Native.Nat.{ℕ, zero, suc, ◌+◌, ◌*◌, ◌/◌, ◌%◌, ◌^◌, ◌<◌}
use Prim.Native.Char.{code}
use Prim.Native.String.{String}
use mathlib.Core.Path.{◌≡◌, refl, ap, ap₂, sym, ◌∙◌}
use mathlib.Core.List.{List, [], ◌∷◌, ◌++◌}
use mathlib.Core.Option.{Option, none, some}
use provii_crypto.Prelude.Tests.{ltb, ◌==◌, if◌then◌else◌}
use Prim.Native.Nat.{bit_and}
use mathlib.Core.Bool.{Bool, true, false, ◌&&◌}
use provii_crypto.Prelude.Bits.{bit_and-one}
use native.Mathlib.Omega.{arith}
use native.Mathlib.Nat.{pow-suc, div-div-eq-div-mul}
use provii_crypto.Prelude.Lists.{length, length-append, append_inj, All, All-append}

abbrev pub IsByte : ℕ → Type 0
IsByte b = b < 256

-- The bytes of an ASCII literal.
abbrev pub codes : String → List ℕ
codes String.[] = []
codes (String.◌∷◌ c s) = code c ∷ codes s

-- `u8::try_from`, of a `usize`.
abbrev pub u8_try_from : ℕ → Option ℕ
u8_try_from n = if ltb n 256 then some n else none

-- The lowest `n` bytes of a number, lowest first and highest first.
unfoldable pub to_le_bytes : ℕ → ℕ → List ℕ
to_le_bytes zero v = []
to_le_bytes (suc n) v = (v % 256) ∷ to_le_bytes n (v / 256)

unfoldable pub to_be_bytes : ℕ → ℕ → List ℕ
to_be_bytes zero v = []
to_be_bytes (suc n) v = to_be_bytes n (v / 256) ++ (v % 256 ∷ [])

pub length-to_le_bytes : (n v : ℕ) → length (to_le_bytes n v) ≡ n
unfolding to_le_bytes
length-to_le_bytes zero v = refl
length-to_le_bytes (suc n) v = ap suc (length-to_le_bytes n (v / 256))

pub length-to_be_bytes : (n v : ℕ) → length (to_be_bytes n v) ≡ n
unfolding to_be_bytes
length-to_be_bytes zero v = refl
length-to_be_bytes (suc n) v =
    omega (
      arith,
      length-append (to_be_bytes n (v / 256)) (v % 256 ∷ []),
      length-to_be_bytes n (v / 256),
    )

pub to_le_bytes-IsByte : (n v : ℕ) → All IsByte (to_le_bytes n v)
unfolding to_le_bytes
to_le_bytes-IsByte zero v = tt
to_le_bytes-IsByte (suc n) v = (omega arith, to_le_bytes-IsByte n (v / 256))

pub to_be_bytes-IsByte : (n v : ℕ) → All IsByte (to_be_bytes n v)
unfolding to_be_bytes
to_be_bytes-IsByte zero v = tt
to_be_bytes-IsByte (suc n) v =
    All-append IsByte (to_be_bytes n (v / 256)) (v % 256 ∷ []) (to_be_bytes-IsByte n (v / 256))
      (omega arith)

pub to_le_bytes_inj :
    (n a b : ℕ) → a < 256 ^ n → b < 256 ^ n → to_le_bytes n a ≡ to_le_bytes n b → a ≡ b
unfolding to_le_bytes
to_le_bytes_inj zero a b p q e = omega arith
to_le_bytes_inj (suc n) a b p q e =
    let r = pow-suc 256 n in
    let h : a % 256 ≡ b % 256 = cc in
    let t : a / 256 ≡ b / 256 =
      to_le_bytes_inj n (a / 256) (b / 256) (omega arith) (omega arith) (cc) in
    omega arith

pub to_be_bytes_inj :
    (n a b : ℕ) → a < 256 ^ n → b < 256 ^ n → to_be_bytes n a ≡ to_be_bytes n b → a ≡ b
unfolding to_be_bytes
to_be_bytes_inj zero a b p q e = omega arith
to_be_bytes_inj (suc n) a b p q e =
    let r = pow-suc 256 n in
    let (e', l) =
      append_inj (to_be_bytes n (a / 256)) (to_be_bytes n (b / 256)) (a % 256 ∷ []) (b % 256 ∷ [])
        (omega (arith, length-to_be_bytes n (a / 256), length-to_be_bytes n (b / 256))) e in
    let h : a % 256 ≡ b % 256 = cc in
    let t : a / 256 ≡ b / 256 =
      to_be_bytes_inj n (a / 256) (b / 256) (omega arith) (omega arith) e' in
    omega arith

abbrev pub to_ℕ : Bool → ℕ
to_ℕ true = 1
to_ℕ false = 0

-- The number that bits spell, lowest bit first.
abbrev pub value : List Bool → ℕ
value [] = 0
value (b ∷ bs) = to_ℕ b + 2 * value bs

-- `for i in i..i + left { push(((v >> i) & 1) == 1) }`
unfoldable pub bits_from : ℕ → ℕ → ℕ → List Bool
bits_from zero i v = []
bits_from (suc left) i v = (bit_and (v / 2 ^ i) 1 == 1) ∷ bits_from left (suc i) v

-- The `for i in 0..8` loop over one byte.
abbrev pub byte_bits : ℕ → List Bool
byte_bits b = bits_from 8 0 b

pub length-bits_from : (left i v : ℕ) → length (bits_from left i v) ≡ left
unfolding bits_from
length-bits_from zero i v = refl
length-bits_from (suc left) i v = ap suc (length-bits_from left (suc i) v)

half_shift : (v i : ℕ) → v / 2 ^ suc i ≡ v / 2 / 2 ^ i
half_shift v i = ap (λ t. v / t) (omega (arith, pow-suc 2 i)) ∙ sym (div-div-eq-div-mul v 2 (2 ^ i))

pub bits_from-suc : (left i v : ℕ) → bits_from left (suc i) v ≡ bits_from left i (v / 2)
unfolding bits_from
bits_from-suc zero i v = refl
bits_from-suc (suc left) i v = ap₂ ◌∷◌ (rw half_shift) (bits_from-suc left (suc i) v)

low_bit : (v : ℕ) → to_ℕ (bit_and (v / 2 ^ 0) 1 == 1) ≡ v % 2
low_bit v = ground (arith, bit_and-one (v / 1))

-- The first `n` bits of a number spell it, if it has no more.
pub value-bits_from : (n v : ℕ) → v < 2 ^ n → value (bits_from n 0 v) ≡ v
unfolding bits_from
value-bits_from zero v h = omega arith
value-bits_from (suc n) v h = omega (
  arith,
  low_bit v,
  ap value (bits_from-suc n 0 v),
  value-bits_from n (v / 2) (omega (arith, pow-suc 2 n)),
)

-- Equality of byte strings, as `==` on slices and `ct_eq` on arrays decide it.
abbrev pub bytes_eq : List ℕ → List ℕ → Bool
bytes_eq [] [] = true
bytes_eq [] (y ∷ ys) = false
bytes_eq (x ∷ xs) [] = false
bytes_eq (x ∷ xs) (y ∷ ys) = x == y && bytes_eq xs ys

pub bytes_eq_sound : (xs ys : List ℕ) → bytes_eq xs ys ≡ true → xs ≡ ys
bytes_eq_sound [] [] h = refl
bytes_eq_sound [] (y ∷ ys) h = cc
bytes_eq_sound (x ∷ xs) [] h = cc
bytes_eq_sound (x ∷ xs) (y ∷ ys) h = ground (arith, bytes_eq_sound xs ys)

pub bytes_eq_refl : (xs : List ℕ) → bytes_eq xs xs ≡ true
bytes_eq_refl [] = refl
bytes_eq_refl (x ∷ xs) = ground (arith, bytes_eq_refl xs)
