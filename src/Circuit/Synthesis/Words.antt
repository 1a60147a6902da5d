-- ===== src/Circuit/Synthesis/Words.antt =====
-- Bits as bytes: the bits of a 32-bit word are those of its little-endian bytes, as the assembly of
-- the public inputs has them, and bits in eights are those of a byte string.
use provii_crypto.Prelude.{
  ℕ, zero, suc, ◌+◌, ◌*◌, ◌/◌, ◌%◌, ◌^◌, ◌<◌, ◌≡◌, refl, sym, ap, ap₂, ◌∙◌, arith, Bool, List, [],
  ◌∷◌, ◌++◌, length, take, drop, All, take-append-drop, length-take, length-drop,
}
use native.Mathlib.Nat.{pow-suc}
use provii_crypto.Prelude.Bytes.{
  IsByte, value, bits_from, length-bits_from, byte_bits, value-bits_from, to_le_bytes,
  length-to_le_bytes,
}
use provii_crypto.Prelude.Decode.{value-lt, bits_from-value, byte_bits-value}
use provii_crypto.PublicInputs.{bits_le_from_bytes}
use provii_crypto.PublicInputs.Bytes.{length-bits_le_from_bytes}

abbrev doubled : ℕ → ℕ → ℕ
doubled zero x = x
doubled (suc n) x = 2 * doubled n x

value-append : (a b : List Bool) → value (a ++ b) ≡ value a + doubled (length a) (value b)
value-append [] b = omega arith
value-append (x ∷ a) b = omega (arith, value-append a b)

value-byte_bits : (x : ℕ) (b : List Bool) → x < 256 → value (byte_bits x ++ b) ≡ x + 256 * value b
value-byte_bits x b h =
    let l : doubled (length (byte_bits x)) (value b) ≡ 256 * value b =
      ap (λ n. doubled n (value b)) (length-bits_from 8 0 x) ∙ eight (value b) in
    omega (arith, value-append (byte_bits x) b, value-bits_from 8 x h)
  where
    eight : (y : ℕ) → doubled 8 y ≡ 256 * y
    eight y = omega arith

value-to_le_bytes : (n v : ℕ) → v < 256 ^ n → value (bits_le_from_bytes (to_le_bytes n v)) ≡ v
unfolding to_le_bytes bits_le_from_bytes
value-to_le_bytes zero v h = omega arith
value-to_le_bytes (suc n) v h = omega (
  arith,
  value-byte_bits (v % 256) (bits_le_from_bytes (to_le_bytes n (v / 256))) (omega arith),
  value-to_le_bytes n (v / 256) (omega (arith, pow-suc 256 n)),
)

-- A word's bits are those of its four bytes.
pub to_le_bytes-bits_from :
    (v : ℕ) → v < 2 ^ 32 → bits_le_from_bytes (to_le_bytes 4 v) ≡ bits_from 32 0 v
to_le_bytes-bits_from v h =
    let bs = bits_le_from_bytes (to_le_bytes 4 v) in
    let l : length bs ≡ 32 =
      omega (arith, length-bits_le_from_bytes (to_le_bytes 4 v), length-to_le_bytes 4 v) in
    sym (bits_from-value bs) ∙ ap₂ (λ n w. bits_from n 0 w) l (value-to_le_bytes 4 v (omega arith))

-- The bytes that bits in eights spell.
pub record Spelled (n : ℕ) (bits : List Bool) : Type 0 where
  pub bytes : List ℕ
  pub bytes-IsByte : All IsByte bytes
  pub length-bytes : length bytes ≡ n
  pub bytes_bits : bits ≡ bits_le_from_bytes bytes

nil_of_length : (bits : List Bool) → length bits ≡ 0 → bits ≡ []
nil_of_length [] h = refl
nil_of_length (b ∷ bits) h = absurd (omega arith)

pub spell : (n : ℕ) (bits : List Bool) → length bits ≡ 8 * n → Spelled n bits
unfolding bits_le_from_bytes
spell zero bits h = record {
  bytes = [];
  bytes-IsByte = tt;
  length-bytes = refl;
  bytes_bits = nil_of_length bits (omega arith);
}
spell (suc n) bits h =
    let l : length (take 8 bits) ≡ 8 = omega (arith, length-take 8 bits) in
    let rest = spell n (drop 8 bits) (omega (arith, length-drop 8 bits)) in
    record {
      bytes = value (take 8 bits) ∷ rest.bytes;
      bytes-IsByte = (small (take 8 bits) l, rest.bytes-IsByte);
      length-bytes = ap suc rest.length-bytes;
      bytes_bits =
          sym (take-append-drop 8 bits)
          ∙ ap₂ ◌++◌ (sym (byte_bits-value (take 8 bits) l)) rest.bytes_bits;
    }
  where
    small : (bs : List Bool) → length bs ≡ 8 → value bs < 256
    small bs l = omega (arith, value-lt bs, ap (λ n. 2 ^ n) l)
