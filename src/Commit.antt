-- ===== src/Commit.antt =====
-- crypto-commit/src/lib.rs: the host's commitment to a date of birth, the nullifier, and the
-- randomness. The Pedersen hash of sapling-crypto, with its point encoded, is a parameter.
pub mod Randomness
pub mod Binding
mod Tests
use provii_crypto.Prelude.{
  ℕ, zero, suc, ◌+◌, ◌/◌, ◌%◌, ◌^◌, ◌≡◌, bit_and, bit_or, Bool, true, false, not,
}
use provii_crypto.Prelude.{
  List, [], ◌∷◌, ◌++◌, Option, some, none, Result, ok, err, ◌>>=◌, ◌>>◌, guard, ltb, ◌==◌,
}
use provii_crypto.Prelude.{if◌then◌else◌, length, take, drop, get_elem?}
use provii_crypto.Prelude.Int.{ℤ}
use provii_crypto.Prelude.Bytes.{byte_bits}
use provii_crypto.Commons.{Error, invalid_input, bias_for_circuit, nullifier_dst}
use provii_crypto.PublicInputs.{bits_le_from_bytes}
use provii_crypto.Entropy.{has_enough_unique}

-- `sapling_crypto::pedersen_hash::Personalization`.
pub data Personalization : Type 0 where
  note_commitment : Personalization
  merkle_tree : ℕ → Personalization

abbrev pub max_pedersen_randomness_bits : ℕ
max_pedersen_randomness_bits = 1096

abbrev pub min_pedersen_randomness_bits : ℕ
min_pedersen_randomness_bits = 128

-- `for (i, &bit) in chunk { if bit { byte |= 1 << i } }`, from position `i`.
abbrev pub chunk_byte : ℕ → List Bool → ℕ → ℕ
chunk_byte i [] byte = byte
chunk_byte i (bit ∷ bits) byte = chunk_byte (suc i) bits (if bit then bit_or byte (2 ^ i) else byte)

-- `r_bits.chunks(8)`; each round takes a bit at least, so the length is enough fuel.
unfoldable pub chunk_bytes : ℕ → List Bool → List ℕ
chunk_bytes zero bits = []
chunk_bytes (suc fuel) [] = []
chunk_bytes (suc fuel) (b ∷ bits) =
    chunk_byte 0 (take 8 (b ∷ bits)) 0 ∷ chunk_bytes fuel (drop 8 (b ∷ bits))

abbrev pub randomness_bytes : List Bool → List ℕ
randomness_bytes r_bits = chunk_bytes (length r_bits) r_bits

unfoldable pub validate_commitment_randomness : List Bool → Result Error (Unit {0})
validate_commitment_randomness r_bits =
    if ltb (length r_bits) 32
    then err invalid_input
    else (if has_enough_unique (randomness_bytes r_bits) then ok tt else err invalid_input)

-- `push((value & 1) != 0); value >>= 1`
unfoldable pub shift_bits : ℕ → ℕ → List Bool
shift_bits zero v = []
shift_bits (suc n) v = not (bit_and v 1 == 0) ∷ shift_bits n (v / 2)

module _ (pedersen_hash : Personalization → List Bool → List ℕ) where
  unfoldable pub pedersen_commit_dob_validated : ℤ → List Bool → Result Error (List ℕ)
  pedersen_commit_dob_validated dob_days r_bits = do
    validate_commitment_randomness r_bits
    guard (not (ltb (length r_bits) min_pedersen_randomness_bits)) invalid_input
    guard (not (ltb max_pedersen_randomness_bits (length r_bits))) invalid_input
    let biased = bias_for_circuit dob_days
    ok (pedersen_hash note_commitment (shift_bits 32 biased ++ r_bits))

  unfoldable pub pedersen_nullifier : List ℕ → List ℕ
  pedersen_nullifier c_bytes =
      pedersen_hash (merkle_tree 0) (bits_le_from_bytes nullifier_dst ++ bits_le_from_bytes c_bytes)

-- `buf.get(i / 8).copied().unwrap_or(0)`
abbrev pub unwrap_or : Option ℕ → ℕ → ℕ
unwrap_or none d = d
unwrap_or (some b) d = b

-- The loop for `i` in `i..i + left`.
pub draw_bits : List ℕ → ℕ → ℕ → List Bool
draw_bits buf zero i = []
draw_bits buf (suc left) i =
    (bit_and (unwrap_or (get_elem? buf (i / 8)) 0 / 2 ^ (i % 8)) 1 == 1)
    ∷ draw_bits buf left (suc i)

-- The random source fills as many bytes as it is asked for.
pub generate_commitment_randomness : (ℕ → List ℕ) → ℕ → List Bool
generate_commitment_randomness fill_bytes num_bits =
    draw_bits (fill_bytes ((num_bits + 7) / 8)) num_bits 0
