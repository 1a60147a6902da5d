-- ===== src/Issuance/Tests.antt =====
-- A credential signed with the integers modulo two as the subgroup, carried into the circuit.
use provii_crypto.Prelude.{◌≡◌, refl, arith, Bool, true, List, [], ◌∷◌, ◌++◌, some, ok, replicate}
use provii_crypto.Prelude.Int.{pos, negsuc}
use provii_crypto.Prelude.Bytes.{bits_from}
use mathlib.Core.List.{flat_map}
use provii_crypto.Signature.Primitives.{spending_key_gen_bytes}
use provii_crypto.PublicInputs.{bits_le_from_bytes}
use provii_crypto.Circuit.Synthesis.TwoPoints.{two_points, length-encode, digest}
use provii_crypto.Circuit.Curve.{pedersen_hash}
use provii_crypto.Circuit.Age.{AgeWitness}
use provii_crypto.Commons.{bias_for_circuit}
use provii_crypto.Commit.{
  pedersen_commit_dob_validated, validate_commitment_randomness, shift_bits, chunk_bytes,
}
use provii_crypto.Entropy.{has_enough_unique, count_unique}
use provii_crypto.Commit
use provii_crypto.Credential.{cred_v2_prehash_bytes}
use provii_crypto.PublicInputs.{PublicValues, packed}
use provii_crypto.PublicInputs.Assembly
use provii_crypto.PublicInputs.Tests.{packing}
use provii_crypto.Signature.{
  SigningKey, sign_cred_v2, signing_key_from_bytes, sign_hash_internal, signature_to_bytes,
  nonce_from, hash_challenge, get_spending_key_generator, verification_key,
}
use provii_crypto.Signature.Schnorr.{public_bytes}
use provii_crypto.Circuit.Synthesis.Issued.{message_of}
use provii_crypto.Circuit.Synthesis.HonestExample.{
  exposing_system-IsHonest, gadgets-IsHonestSapling, exposing-IsHonestExposing,
}
use provii_crypto.Circuit.Synthesis.TwoPoints.{encode-IsByte}
use provii_crypto.Circuit.Synthesis.Example.{Exposed, exposing}
use provii_crypto.Prelude.{cons_inj}
use provii_crypto.Verifier.{verify_age_snark, get}
use provii_crypto.Prover.Attempts.{returned, generate_proof_with_retry}
use provii_crypto.Prover.Proving.{TestSystem, AgeSnarkProofV2Extended, prove_age_snark}
use provii_crypto.Prover.Proving.Composed.{carried}
use provii_crypto.Prover.Proving.Example.{
  bytewise, prover, system_for, environment, laptop, fresh_runtime, configures, one_key,
}
use provii_crypto.Issuance.Verified.{IsTrial, IsComplete, issued_credential_verifies}
use provii_crypto.Issuance.Proved.{IsIssued}
use provii_crypto.Issuance.Example.{scalar_bytes, modulo_two, subgroup}

-- The bits of the bytes 0 to 15, as the randomness.
abbrev r_bits : List Bool
r_bits =
    bits_le_from_bytes (0 ∷ 1 ∷ 2 ∷ 3 ∷ 4 ∷ 5 ∷ 6 ∷ 7 ∷ 8 ∷ 9 ∷ 10 ∷ 11 ∷ 12 ∷ 13 ∷ 14 ∷ 15 ∷ [])

abbrev credential : AgeWitness
credential = record {
  dob_days = negsuc 3651;
  r_bits = r_bits;
  issuer_vk_bytes = spending_key_gen_bytes;
  sig_rj_bytes = spending_key_gen_bytes ++ replicate 32 0;
  v = 2;
  kid = replicate 14 107;
  c_bytes = spending_key_gen_bytes;
  iat = 258;
  exp = 100000;
  schema = replicate 12 115;
}

commitment_run :
    pedersen_commit_dob_validated (pedersen_hash two_points) (negsuc 3651) r_bits
    ≡ ok spending_key_gen_bytes
unfolding pedersen_commit_dob_validated bits_le_from_bytes bits_from flat_map bias_for_circuit
    validate_commitment_randomness shift_bits chunk_bytes has_enough_unique count_unique
commitment_run = refl

abbrev key : SigningKey modulo_two
key = record { scalar = true }

signing_run :
    sign_cred_v2 modulo_two (message_of credential) (scalar_bytes true) ≡ ok credential.sig_rj_bytes
unfolding sign_cred_v2 signing_key_from_bytes sign_hash_internal signature_to_bytes nonce_from
    hash_challenge get_spending_key_generator cred_v2_prehash_bytes bits_le_from_bytes bits_from
    flat_map
signing_run = refl

key_run : signing_key_from_bytes modulo_two (scalar_bytes true) ≡ ok key
unfolding signing_key_from_bytes
key_run = refl

vk_run : spending_key_gen_bytes ≡ public_bytes modulo_two key
unfolding verification_key get_spending_key_generator
vk_run = refl

abbrev values : PublicValues
values = record {
  direction = true;
  cutoff_days = pos 13880;
  rp_hash = digest;
  issuer_vk_bytes = spending_key_gen_bytes;
  cred_nullifier = Commit.pedersen_nullifier (pedersen_hash two_points) spending_key_gen_bytes;
}

is_issued : IsIssued modulo_two two_points values credential
unfolding bits_le_from_bytes bits_from
is_issued = record {
  signing_key = scalar_bytes true;
  key = key;
  message-IsTyped = omega arith;
  dob_days-IsI32 = omega arith;
  key_is = key_run;
  committed = commitment_run;
  signed = signing_run;
  length-kid = refl;
  length-schema = refl;
  length-r_bits = refl;
  witness_vk_is = vk_run;
  public_vk_is = refl;
  nullifier_is = refl;
  qualifies = omega arith;
}

values-IsTyped : Assembly.IsTyped values
unfolding Commit.pedersen_nullifier
values-IsTyped = (omega arith, omega arith, omega arith, (length-encode _, encode-IsByte _))

abbrev inputs : List (List Bool)
inputs = packed packing values

abbrev start : Exposed
start = record { scalars = []; satisfied = true }

abbrev system : TestSystem two_points
system = system_for inputs

trial : IsTrial prover subgroup system environment (exposing inputs) values
trial = record { packs = refl; inputs = refl; nothing = refl; satisfied = refl }

complete : IsComplete prover system environment 12 values credential 0 1
unfolding generate_proof_with_retry
complete = record {
  proof = 12;
  proof_bytes = 12 ∷ [];
  creates = λ s. refl;
  verifies = λ s. refl;
  written = refl;
  read = refl;
}

not_zero : ¬ (credential.c_bytes ≡ replicate 32 0)
not_zero e = omega (arith, (cons_inj e).0)

issued_credential_verifies_example :
    (out : AgeSnarkProofV2Extended) × ((prove_age_snark prover system environment 12 values
        credential 4 0 1 laptop fresh_runtime).0
      ≡ returned (ok out))
    × (carried out ≡ values)
    × (verify_age_snark packing bytewise out.proof (carried out) out.vk (some one_key)
        ≡ ok (record { inputs = carried out; vk_id = out.vk }))
unfolding get
issued_credential_verifies_example =
    issued_credential_verifies prover subgroup system environment (exposing inputs)
      (exposing_system-IsHonest inputs) (gadgets-IsHonestSapling inputs)
      (exposing-IsHonestExposing inputs) values credential values-IsTyped is_issued 12 4 0 1 laptop
      fresh_runtime (some one_key) trial (λ e. ground arith, omega arith)
      (λ e. ground arith, omega arith) (omega arith) not_zero complete refl configures refl
