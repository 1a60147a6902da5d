-- ===== src/Circuit/Alloc/Honest.antt =====
-- Allocation by an honest prover: the wires carry the value's bits.
use provii_crypto.Prelude.{
  ℕ, zero, suc, ◌+◌, ◌*◌, ◌/◌, ◌%◌, ◌^◌, ◌≡◌, refl, ap, ◌∙◌, arith, bit_and, Bool, List, [], ◌∷◌,
  ◌++◌, some, length, map, ◌==◌, ==_iff,
}
use native.Mathlib.Nat.{pow-suc, div-div-eq-div-mul}
use provii_crypto.Prelude.Bits.{bit_and_step, bit_and-one}
use provii_crypto.Prelude.Bytes.{bits_from, byte_bits, to_be_bytes}
use provii_crypto.PublicInputs.{bits_le_from_bytes}
use provii_crypto.Circuit.Backend.{Bellman, IsHonest, known}
use provii_crypto.Circuit.Runs.{Runs, Runs-bind, Runs-return, Runs-guarded}
use provii_crypto.Circuit.Alloc.{
  be_byte, alloc_all, alloc_u32_input, alloc_u32_witness, alloc_u8_bits, alloc_u8_witness,
  alloc_be_bytes, alloc_u64_witness, alloc_bytes_input, alloc_bytes_witness_fixed,
  alloc_bool_vec_witness_fixed,
}
use provii_crypto.Circuit.Alloc.Wires.{alloc_all-known}

mask3 : (a : ℕ) → bit_and a 3 ≡ a % 4
mask3 a = omega (arith, bit_and_step a 3, bit_and-one (a / 2))

mask7 : (a : ℕ) → bit_and a 7 ≡ a % 8
mask7 a = omega (arith, bit_and_step a 7, mask3 (a / 2))

mask15 : (a : ℕ) → bit_and a 15 ≡ a % 16
mask15 a = omega (arith, bit_and_step a 15, mask7 (a / 2))

mask31 : (a : ℕ) → bit_and a 31 ≡ a % 32
mask31 a = omega (arith, bit_and_step a 31, mask15 (a / 2))

mask63 : (a : ℕ) → bit_and a 63 ≡ a % 64
mask63 a = omega (arith, bit_and_step a 63, mask31 (a / 2))

mask127 : (a : ℕ) → bit_and a 127 ≡ a % 128
mask127 a = omega (arith, bit_and_step a 127, mask63 (a / 2))

mask255 : (a : ℕ) → bit_and a 255 ≡ a % 256
mask255 a = omega (arith, bit_and_step a 255, mask127 (a / 2))

-- The highest byte first.
to_be_bytes-top : (n v : ℕ) → to_be_bytes (suc n) v ≡ (v / 256 ^ n % 256) ∷ to_be_bytes n v
unfolding to_be_bytes
to_be_bytes-top zero v = ap (λ t. (t % 256) ∷ []) (omega arith)
to_be_bytes-top (suc n) v =
    ap (λ t. t ++ (v % 256 ∷ [])) (to_be_bytes-top n (v / 256))
    ∙ ap (λ t. (t % 256) ∷ to_be_bytes n (v / 256) ++ (v % 256 ∷ [])) (shift v n)
  where
    shift : (v n : ℕ) → v / 256 / 256 ^ n ≡ v / 256 ^ suc n
    shift v n = div-div-eq-div-mul v 256 (256 ^ n) ∙ ap (λ t. v / t) (omega (arith, pow-suc 256 n))

pow_four : (k : ℕ) → 2 ^ suc (suc (suc (suc k))) ≡ 16 * 2 ^ k
pow_four k =
    omega (
      arith,
      pow-suc 2 k,
      pow-suc 2 (suc k),
      pow-suc 2 (suc (suc k)),
      pow-suc 2 (suc (suc (suc k))),
    )

pow_eight : (k : ℕ) → 2 ^ suc (suc (suc (suc (suc (suc (suc (suc k))))))) ≡ 256 * 2 ^ k
pow_eight k = omega (arith, pow_four k, pow_four (suc (suc (suc (suc k)))))

pow_bytes : (n : ℕ) → 2 ^ (8 * n) ≡ 256 ^ n
pow_bytes zero = refl
pow_bytes (suc m) =
    ap (λ t. 2 ^ t) (omega arith) ∙ pow_eight (8 * m) ∙ omega (arith, pow-suc 256 m, pow_bytes m)

pub map-append : (us vs : List Bool) → map known (us ++ vs) ≡ map known us ++ map known vs
map-append [] vs = refl
map-append (u ∷ us) vs = ap (λ t. known u ∷ t) (map-append us vs)

-- The byte of position `i` is the one `left` places from the lowest.
be_byte-digit : (i left v : ℕ) → i + suc left ≡ 8 → be_byte i v ≡ v / 256 ^ left % 256
be_byte-digit i left v e =
    mask255 _
    ∙ ap (λ n. v / 2 ^ (8 * n) % 256) (omega arith)
    ∙ ap (λ p. v / p % 256) (pow_bytes left)

module _ (B : Bellman) (H : IsHonest B) where
  alloc_all-Runs : (us : List Bool) → Runs B (alloc_all B (map some us)) (map known us)
  alloc_all-Runs us = record { on_run = alloc_all-known B H us }

  pub alloc_u32_input-Runs : (v : ℕ) → Runs B (alloc_u32_input B v) (map known (bits_from 32 0 v))
  unfolding alloc_u32_input
  alloc_u32_input-Runs v = alloc_all-Runs (bits_from 32 0 v)

  pub alloc_u32_witness-Runs :
      (v : ℕ) → Runs B (alloc_u32_witness B (some v)) (map known (bits_from 32 0 v))
  unfolding alloc_u32_witness
  alloc_u32_witness-Runs v = alloc_all-Runs (bits_from 32 0 v)

  alloc_u8_bits-Runs : (v : ℕ) → Runs B (alloc_u8_bits B (some v)) (map known (byte_bits v))
  unfolding alloc_u8_bits
  alloc_u8_bits-Runs v = alloc_all-Runs (byte_bits v)

  pub alloc_u8_witness-Runs :
      (v : ℕ) → Runs B (alloc_u8_witness B (some v)) (map known (byte_bits v))
  unfolding alloc_u8_witness
  alloc_u8_witness-Runs v = alloc_u8_bits-Runs v

  pub alloc_bytes_input-Runs :
      (bytes : List ℕ) → Runs B (alloc_bytes_input B bytes) (map known (bits_le_from_bytes bytes))
  unfolding alloc_bytes_input
  alloc_bytes_input-Runs bytes = alloc_all-Runs (bits_le_from_bytes bytes)

  pub alloc_bytes_witness-Runs :
      (bytes : List ℕ) (n : ℕ)
      → length bytes ≡ n
      → Runs B (alloc_bytes_witness_fixed B (some bytes) n) (map known (bits_le_from_bytes bytes))
  unfolding alloc_bytes_witness_fixed
  alloc_bytes_witness-Runs bytes n e =
      Runs-guarded B (length bytes == n) _ _ ((==_iff _ _).1 e)
        (alloc_all-Runs (bits_le_from_bytes bytes))

  pub alloc_bool_vec_witness-Runs :
      (b : List Bool) (n : ℕ)
      → length b ≡ n
      → Runs B (alloc_bool_vec_witness_fixed B (some b) n) (map known b)
  unfolding alloc_bool_vec_witness_fixed
  alloc_bool_vec_witness-Runs b n e =
      Runs-guarded B (length b == n) _ _ ((==_iff _ _).1 e) (alloc_all-Runs b)

  alloc_be_bytes-Runs :
      (left i v : ℕ)
      → i + left ≡ 8
      → Runs B
          (alloc_be_bytes B left i (some v))
          (map known (bits_le_from_bytes (to_be_bytes left v)))
  unfolding alloc_be_bytes bits_le_from_bytes
  alloc_be_bytes-Runs zero i v e = unfold to_be_bytes in Runs-return B []
  alloc_be_bytes-Runs (suc left) i v e =
      rw (to_be_bytes-top left v, map-append, ← (be_byte-digit i left v e))
        (Runs-bind B (alloc_u8_bits B (some (be_byte i v))) _ _ _ (alloc_u8_bits-Runs (be_byte i v))
          (Runs-bind B (alloc_be_bytes B left (suc i) (some v)) _ _ _
            (alloc_be_bytes-Runs left (suc i) v (omega arith))
            (Runs-return B (
              map known (byte_bits (be_byte i v))
              ++ map known (bits_le_from_bytes (to_be_bytes left v))))))

  pub alloc_u64_witness-Runs :
      (v : ℕ)
      → Runs B (alloc_u64_witness B (some v)) (map known (bits_le_from_bytes (to_be_bytes 8 v)))
  unfolding alloc_u64_witness
  alloc_u64_witness-Runs v = alloc_be_bytes-Runs 8 0 v refl
