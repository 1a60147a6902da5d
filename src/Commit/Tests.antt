-- ===== src/Commit/Tests.antt =====
-- Randomness from a counting source under a hash that drops nothing, and the theorems at it.
use provii_crypto.Prelude.{
  ℕ, ◌*◌, ◌≡◌, refl, arith, Bool, true, List, length, ok, err, map, replicate,
}
use provii_crypto.Prelude.Bytes.{to_ℕ}
use provii_crypto.Prelude.Int.{negsuc}
use provii_crypto.Commons.{invalid_input}
use provii_crypto.PublicInputs.{bits_le_from_bytes}
use provii_crypto.Commit.{
  Personalization, note_commitment, pedersen_commit_dob_validated, randomness_bytes,
  generate_commitment_randomness,
}
use provii_crypto.Commit.Randomness.{generate_commitment_randomness_lem}
use provii_crypto.Commit.Binding.{IsStrong, opening, pedersen_commit_dob_validated_iff}

abbrev plain_hash : Personalization → List Bool → List ℕ
plain_hash p bits = map to_ℕ bits

abbrev weak : List Bool
weak = replicate 128 true

pedersen_commit_dob_validated_iff_example :
    (IsStrong weak
      → pedersen_commit_dob_validated plain_hash (negsuc 3651) weak
        ≡ ok (plain_hash note_commitment (opening (negsuc 3651) weak)))
    × (¬ IsStrong weak
        → pedersen_commit_dob_validated plain_hash (negsuc 3651) weak ≡ err invalid_input)
pedersen_commit_dob_validated_iff_example =
    pedersen_commit_dob_validated_iff plain_hash (negsuc 3651) weak

generate_commitment_randomness_lem_example :
    (length (generate_commitment_randomness (λ n. replicate n 77) 20) ≡ 20)
    × (generate_commitment_randomness (λ n. replicate n 77) (8 * 3)
        ≡ bits_le_from_bytes (replicate 3 77))
    × (randomness_bytes (generate_commitment_randomness (λ n. replicate n 77) (8 * 3))
        ≡ replicate 3 77)
generate_commitment_randomness_lem_example =
    generate_commitment_randomness_lem (λ n. replicate n 77) 3 20 refl (omega arith)
