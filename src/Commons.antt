-- ===== src/Commons.antt =====
-- crypto-commons/src/lib.rs and constants.rs: the shared error type, the domain tags and limits,
-- the bias that maps signed days to the circuit's unsigned words, and the small size checks.
-- Byte arrays and `&[u8]` are lists of numbers below 256; `i32` and `i64` values are integers.
pub mod Bias
pub mod Civil
mod Tests
use provii_crypto.Prelude.{ℕ, ◌-◌, ◌^◌, bit_xor, List, Result, ok, err, ◌==◌, length, ltb}
use provii_crypto.Prelude.{Bool, false, not, if◌then◌else◌}
use provii_crypto.Prelude.Int.{ℤ, pos, negsuc, to_bits32, of_bits32}
use provii_crypto.Prelude.Bytes.{codes}

-- `Error`, the errors that all crates share.
pub data Error : Type 0 where
  invalid_format invalid_proof verification_failed invalid_input invalid_signature : Error
  invalid_origin_hash missing_timestamp future_timestamp credential_banned : Error
  nullifier_store_failure expired not_found rate_limit_exceeded prover_failed : Error
  verifier_not_initialized already_initialized internal field_too_long : Error

abbrev pub cred_dst : List ℕ
cred_dst = codes "provii.cred.v0"

abbrev pub challenge_dst : List ℕ
challenge_dst = codes "provii.challenge.v0"

abbrev pub nullifier_dst : List ℕ
nullifier_dst = codes "provii.nullifier.pedersen.v0"

abbrev pub redjubjub_personalization : List ℕ
redjubjub_personalization = codes "ProviiRJ"

abbrev pub redjubjub_nonce_tag : List ℕ
redjubjub_nonce_tag = codes "ProviiRJ/nonce"

abbrev pub issuance_consent_dst : List ℕ
issuance_consent_dst = codes "provii:issuance-consent:v0"

abbrev pub attestation_clock_skew_tolerance_seconds : ℕ
attestation_clock_skew_tolerance_seconds = 60

abbrev pub sign_bias : ℕ
sign_bias = 0x8000_0000

-- `from_ne_bytes(to_ne_bytes())` keeps the 32-bit pattern.
unfoldable pub bias_for_circuit : ℤ → ℕ
bias_for_circuit days = bit_xor (to_bits32 days) sign_bias

unfoldable pub unbias_from_circuit : ℕ → ℤ
unbias_from_circuit biased = of_bits32 (bit_xor biased sign_bias)

abbrev pub groth16_bls12_381_proof_size : ℕ
groth16_bls12_381_proof_size = 192

-- `AgeSnarkProofV2`.
pub record AgeSnarkProofV2 : Type 0 where
  pub v : ℕ
  pub vk : ℕ
  pub rp : List ℕ
  pub cutoff : ℤ
  pub proof : List ℕ

pub validate_proof_size : AgeSnarkProofV2 → Result Error (Unit {0})
validate_proof_size p =
    if not (length p.proof == groth16_bls12_381_proof_size) then err invalid_format else ok tt

-- `vec_to_array32`: the array holds the slice's bytes.
unfoldable pub vec_to_array32 : List ℕ → Result Error (List ℕ)
vec_to_array32 v = if not (length v == 32) then err invalid_format else ok v

-- `Timestamp`: seconds since the epoch as an `i64`, and nanoseconds as an `i32`.
pub record Timestamp : Type 0 where
  pub seconds : ℤ
  pub nanos : ℤ

-- `(0..1_000_000_000).contains(&nanos)`
abbrev pub contains_nanos : ℤ → Bool
contains_nanos (pos n) = ltb n 1_000_000_000
contains_nanos (negsuc n) = false

unfoldable pub new_timestamp : ℤ → ℤ → Result Error Timestamp
new_timestamp seconds nanos =
    if not (contains_nanos nanos)
    then err invalid_input
    else ok (record { seconds = seconds; nanos = nanos })
