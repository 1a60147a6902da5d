-- ===== src/Prelude/Decode.antt =====
-- Reading bits and bytes back: every bit vector is that of a number or of a byte string, and every
-- byte string is the big-endian form of a number.
use provii_crypto.Prelude.Tests.{◌==◌}
use Prim.Native.Nat.{ℕ, suc, ◌+◌, ◌*◌, ◌/◌, ◌%◌, ◌^◌, ◌<◌, bit_and}
use mathlib.Core.Path.{◌≡◌, refl, ap, ap₂, sym, subst, ◌∙◌}
use mathlib.Core.Bool.{Bool, true, false}
use mathlib.Core.List.{List, [], ◌∷◌, ◌++◌, append_assoc, append-nil}
use native.Mathlib.Omega.{arith}
use native.Mathlib.Nat.{pow-suc}
use provii_crypto.Prelude.Bits.{bit_and-one}
use provii_crypto.Prelude.Lists.{length, All}
use provii_crypto.Prelude.Bytes.{
  IsByte, to_ℕ, value, bits_from, bits_from-suc, byte_bits, to_be_bytes,
}

pub value-lt : (bits : List Bool) → value bits < 2 ^ length bits
value-lt [] = omega arith
value-lt (true ∷ bits) = omega (arith, value-lt bits, pow-suc 2 (length bits))
value-lt (false ∷ bits) = omega (arith, value-lt bits, pow-suc 2 (length bits))

low_bit : (b : Bool) (v : ℕ) → (bit_and ((to_ℕ b + 2 * v) / 2 ^ 0) 1 == 1) ≡ b
low_bit b v = ground (arith, bit_and-one ((to_ℕ b + 2 * v) / 1))

half : (b : Bool) (v : ℕ) → (to_ℕ b + 2 * v) / 2 ≡ v
half true v = omega arith
half false v = omega arith

-- Bits are those of the number that they spell.
pub bits_from-value : (bits : List Bool) → bits_from (length bits) 0 (value bits) ≡ bits
unfolding bits_from
bits_from-value [] = refl
bits_from-value (b ∷ bits) = ap₂ ◌∷◌ (low_bit b (value bits)) (
    bits_from-suc (length bits) 0 (to_ℕ b + 2 * value bits)
    ∙ ap (bits_from (length bits) 0) (half b (value bits))
    ∙ bits_from-value bits)

pub byte_bits-value : (bits : List Bool) → length bits ≡ 8 → byte_bits (value bits) ≡ bits
byte_bits-value bits l = ap (λ n. bits_from n 0 (value bits)) (sym l) ∙ bits_from-value bits

-- The number of a byte string, highest byte first, behind a number read before.
abbrev pub be_value : ℕ → List ℕ → ℕ
be_value acc [] = acc
be_value acc (b ∷ bytes) = be_value (acc * 256 + b) bytes

be_digits :
    (k acc : ℕ) (bytes : List ℕ)
    → All IsByte bytes
    → to_be_bytes (length bytes + k) (be_value acc bytes) ≡ to_be_bytes k acc ++ bytes
unfolding to_be_bytes
be_digits k acc [] h =
    let n : 0 + k ≡ k = omega arith in
    ap (λ n. to_be_bytes n acc) n ∙ sym (append-nil (to_be_bytes k acc))
be_digits k acc (b ∷ bytes) (hb, h) =
    let n : suc (length bytes) + k ≡ length bytes + suc k = omega arith in
    ap (λ n. to_be_bytes n (be_value (acc * 256 + b) bytes)) n
    ∙ be_digits (suc k) (acc * 256 + b) bytes h
    ∙ ap (λ t. t ++ bytes) (last_digit k acc b hb)
    ∙ append_assoc (to_be_bytes k acc) (b ∷ []) bytes
  where
    last_digit :
        (k acc b : ℕ)
        → b < 256
        → to_be_bytes (suc k) (acc * 256 + b) ≡ to_be_bytes k acc ++ (b ∷ [])
    last_digit k acc b h =
        let q : (acc * 256 + b) / 256 ≡ acc = omega arith in
        let r : (acc * 256 + b) % 256 ≡ b = omega arith in
        ap₂ (λ x y. to_be_bytes k x ++ (y ∷ [])) q r

be_value-lt :
    (k acc : ℕ) (bytes : List ℕ)
    → All IsByte bytes
    → acc < 256 ^ k
    → be_value acc bytes < 256 ^ (length bytes + k)
be_value-lt k acc [] hb h = rw (zero_add k) h
  where
    zero_add : (k : ℕ) → 0 + k ≡ k
    zero_add k = omega arith
be_value-lt k acc (b ∷ bytes) (hb, hs) h =
    rw (move k (length bytes))
      (be_value-lt (suc k) (acc * 256 + b) bytes hs (omega (arith, pow-suc 256 k)))
  where
    move : (k n : ℕ) → suc n + k ≡ n + suc k
    move k n = omega arith

-- Eight bytes are the big-endian form of a `u64`.
pub to_be_bytes-be_value :
    (bytes : List ℕ)
    → All IsByte bytes
    → length bytes ≡ 8
    → (be_value 0 bytes < 2 ^ 64) × (to_be_bytes 8 (be_value 0 bytes) ≡ bytes)
unfolding to_be_bytes
to_be_bytes-be_value bytes h l =
    let n : length bytes + 0 ≡ 8 = omega arith in
    (
      subst (λ k. be_value 0 bytes < 256 ^ k) n (be_value-lt 0 0 bytes h (omega arith)),
      ap (λ k. to_be_bytes k (be_value 0 bytes)) (sym n)
          ∙ be_digits 0 0 bytes h
          ∙ none_before bytes,
    )
  where
    none_before : (bytes : List ℕ) → to_be_bytes 0 0 ++ bytes ≡ bytes
    none_before bytes = refl
