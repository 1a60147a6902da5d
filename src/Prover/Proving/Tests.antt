-- ===== src/Prover/Proving/Tests.antt =====
-- A proof system of single bytes whose first call fails, on the synthesis of a birth in 1960, and the
-- prover's theorems at it.
use provii_crypto.Prelude.{
  ℕ, ◌≡◌, ◌↔◌, ◌⊎◌, inl, inr, refl, sym, arith, Bool, true, false, List, [], ◌∷◌, Option, some,
  none, ok, err, ◌==◌, if◌then◌else◌, replicate,
}
use provii_crypto.Prelude.Int.{pos}
use provii_crypto.Commons.{invalid_input, prover_failed}
use provii_crypto.Commit
use provii_crypto.PublicInputs.{PublicValues, packed}
use provii_crypto.PublicInputs.Tests.{packing}
use provii_crypto.Verifier.{Groth16, VerifyResult, Keys, registered, verify_age_snark}
use provii_crypto.Circuit.Age.{AgeWitness}
use provii_crypto.Circuit.Curve.{pedersen_hash}
use provii_crypto.Circuit.Synthesis.{AgePublic}
use provii_crypto.Circuit.Synthesis.TwoPoints.{two_points}
use provii_crypto.Circuit.Synthesis.Tests.{public, witness, inputs, finish, run, public-IsTyped}
use provii_crypto.Prover.Runtime.{
  RuntimeConfig, IsConfigured, init_prover_runtime, init_prover_runtime_once,
}
use provii_crypto.Prover.Validation.{
  IsValid, validate_inputs, validate_inputs_detailed, validate_inputs_iff, flag_iff,
}
use provii_crypto.Prover.Attempts.{
  Attempt, Unwinding, returned, panicked, synthesis_error, unwound, generate_proof_with_retry,
  generate_proof_with_retry_errors,
}
use provii_crypto.Prover.Proving.{
  TestSystem, AgeSnarkProofV2Extended, prove_age_snark, prove_age_snark_auto, auto_public,
}
use provii_crypto.Prover.Proving.Returned.{Satisfied, assemble_compared_ok}
use provii_crypto.Prover.Proving.Composed.{
  IsMade, carried, prove_age_snark-verify, prove_age_snark_checked, prove_age_snark_auto-verify,
}
use provii_crypto.Prover.Proving.Example.{
  bytewise, try_proof, prover, system_for, environment, laptop, defaults, fresh_runtime, configures,
  one_key,
}
use provii_crypto.Prover.Proving.Branches.{prove_age_snark_refuses, prove_age_snark_succeeds}

init_prover_runtime_once_example :
    ((d : RuntimeConfig) × ((init_prover_runtime laptop fresh_runtime).config ≡ some d)
      × IsConfigured laptop defaults d)
    × (init_prover_runtime laptop (init_prover_runtime laptop fresh_runtime)
        ≡ init_prover_runtime laptop fresh_runtime)
init_prover_runtime_once_example =
    init_prover_runtime_once laptop laptop defaults λ n e. ground arith

abbrev system : TestSystem two_points
system = system_for inputs

validate_inputs_iff_example :
    (IsValid public witness → validate_inputs public witness ≡ ok tt)
    × (¬ IsValid public witness → validate_inputs public witness ≡ err invalid_input)
validate_inputs_iff_example = validate_inputs_iff public witness

-- The first call fails and the retry panics.
abbrev failing : ℕ → Attempt ℕ
failing rng = if rng == 0 then synthesis_error else unwound

generate_proof_with_retry_errors_example :
    ((failing 0 ≡ synthesis_error) × (failing 1 ≡ unwound)
      → generate_proof_with_retry failing 0 1 ≡ panicked)
    × (¬ ((failing 0 ≡ synthesis_error) × (failing 1 ≡ unwound))
        → generate_proof_with_retry failing 0 1 ≡ returned (err prover_failed))
unfolding generate_proof_with_retry
generate_proof_with_retry_errors_example =
    generate_proof_with_retry_errors failing 0 1 λ p e. absurd (cc)

valid : IsValid public witness
unfolding validate_inputs_detailed
valid = (flag_iff public witness).0 refl

satisfied : Satisfied prover system environment public witness
unfolding provii_crypto.PublicInputs.bits_le_from_bytes provii_crypto.Prelude.Bytes.to_le_bytes
    provii_crypto.Prelude.Bytes.bits_from provii_crypto.Commons.bias_for_circuit
satisfied = (finish, run, refl)

abbrev call : AgePublic → AgeWitness → Unwinding AgeSnarkProofV2Extended
call p w = (prove_age_snark prover system environment 12 p w 4 0 1 laptop fresh_runtime).0

made : generate_proof_with_retry (try_proof 12) 0 1 ≡ returned (ok 12)
unfolding generate_proof_with_retry
made = refl

prove_age_snark_succeeds_example :
    (out : AgeSnarkProofV2Extended) × (call public witness ≡ returned (ok out))
    × (out.proof ≡ 12 ∷ [])
prove_age_snark_succeeds_example =
    prove_age_snark_succeeds prover system environment 12 public witness 4 0 1 laptop fresh_runtime
      public-IsTyped refl configures valid satisfied made refl refl refl

proved :
    (out : AgeSnarkProofV2Extended) × (call public witness ≡ returned (ok out))
    × (out.proof ≡ 12 ∷ [])
proved =
    prove_age_snark_succeeds prover system environment 12 public witness 4 0 1 laptop fresh_runtime
      public-IsTyped refl configures valid satisfied made refl refl refl

prove_age_snark-verify_example :
    (proved.0.v ≡ 2)
    × (proved.0.vk ≡ 4)
    × (carried proved.0 ≡ public)
    × (verify_age_snark packing bytewise proved.0.proof
          (carried proved.0)
          proved.0.vk
          (some one_key)
        ≡ ok (record { inputs = carried proved.0; vk_id = proved.0.vk }))
unfolding provii_crypto.Verifier.get
prove_age_snark-verify_example =
    prove_age_snark-verify prover system environment 12 public witness 4 0 1 laptop fresh_runtime
      (some one_key) {out = proved.0} public-IsTyped refl proved.1

prove_age_snark_checked_example :
    IsValid public witness
    × Satisfied prover system environment public witness
    × ((proof : ℕ) × (◌≡◌ {A = Option (List ℕ)} (some (proof ∷ [])) (some proved.0.proof))
        × IsMade prover system environment 12 public witness 0 1 proof)
prove_age_snark_checked_example =
    prove_age_snark_checked prover system environment 12 public witness 4 0 1 laptop fresh_runtime
      {out = proved.0} proved.1

-- The witness with an expiry before its issuance.
abbrev expired : AgeWitness
expired = record witness { exp = 5 }

prove_age_snark_refuses_example :
    (¬ IsValid public expired → call public expired ≡ returned (err invalid_input))
    × (IsValid public expired
        → ¬ Satisfied prover system environment public expired
        → call public expired ≡ returned (err prover_failed))
prove_age_snark_refuses_example =
    prove_age_snark_refuses prover system environment 12 public expired 4 0 1 laptop fresh_runtime
      public-IsTyped refl configures

abbrev challenge : List ℕ
challenge = replicate 32 99

auto_is_public : auto_public prover system environment (pos 13880) challenge witness true ≡ public
unfolding auto_public Commit.pedersen_nullifier provii_crypto.PublicInputs.bits_le_from_bytes
    provii_crypto.Prelude.Bytes.bits_from
auto_is_public = refl

auto_run :
    (prove_age_snark_auto prover system environment 12
      (pos 13880)
      challenge
      witness
      4
      true
      0
      1
      laptop
      fresh_runtime).0
    ≡ returned (ok proved.0)
unfolding prove_age_snark_auto
auto_run = rw (auto_is_public, assemble_compared_ok prover public public-IsTyped) proved.1

prove_age_snark_auto-verify_example :
    (proved.0.cutoff ≡ pos 13880)
    × (proved.0.direction ≡ true)
    × (proved.0.rp_hash ≡ two_points.blake2s (replicate 8 0) challenge)
    × (proved.0.issuer_vk_bytes ≡ witness.issuer_vk_bytes)
    × (proved.0.cred_nullifier
        ≡ Commit.pedersen_nullifier (pedersen_hash two_points) witness.c_bytes)
    × (verify_age_snark packing bytewise proved.0.proof
          (carried proved.0)
          proved.0.vk
          (some one_key)
        ≡ ok (record { inputs = carried proved.0; vk_id = proved.0.vk }))
unfolding provii_crypto.Verifier.get
prove_age_snark_auto-verify_example =
    prove_age_snark_auto-verify prover system environment 12 (pos 13880) challenge witness 4 true 0
      1 laptop fresh_runtime (some one_key) {out = proved.0} (rw auto_is_public public-IsTyped) refl
      auto_run
