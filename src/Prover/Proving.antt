-- ===== src/Prover/Proving.antt =====
-- crypto-prover/src/lib.rs: loading parameters, the trial synthesis, and the proving of an age
-- statement, with the checks before and after a proof is made. Logging is left out.
mod Interface
pub use Interface.*
pub mod Returned
pub mod Composed
pub mod Branches
pub mod Example
mod Tests
use provii_crypto.Prelude.{
  ℕ, ◌≡◌, refl, Bool, true, false, not, ◌||◌, List, [], ◌∷◌, Option, some, none, Result, ok, err,
  ◌>>=◌, ◌>>◌, guard, ok_or, map_err, map, replicate, if◌then◌else◌,
}
use provii_crypto.Prelude.Int.{ℤ}
use provii_crypto.Commons.{Error, internal, invalid_input, invalid_format, prover_failed}
use provii_crypto.Commit
use provii_crypto.PublicInputs.{
  Multipack, assemble_public_inputs_manual, assemble_public_inputs_diagnostic,
}
use provii_crypto.Verifier.{Groth16}
use provii_crypto.Circuit.Backend.{Bellman, Boolean, Synth, SynthesisError}
use provii_crypto.Circuit.Age.{AgeWitness}
use provii_crypto.Circuit.Curve.{Curve, Sapling, pedersen_hash}
use provii_crypto.Circuit.Synthesis.{AgePublic, synthesize}
use provii_crypto.Prover.Runtime.{
  RuntimeConfig, DebugLevel, silent, Platform, Runtime, init_prover_runtime,
}
use provii_crypto.Prover.Validation.{ValidationResults, validate_inputs_detailed}
use provii_crypto.Prover.Attempts.{
  Attempt, Unwinding, returned, panicked, generate_proof_with_retry,
}

-- `config.debug_level != DebugLevel::None`
abbrev pub is_logging : DebugLevel → Bool
is_logging silent = false
is_logging DebugLevel.basic = true
is_logging DebugLevel.verbose = true
is_logging DebugLevel.extreme = true

module _ {M : Multipack} {G : Groth16 M} (P : Groth16Prover G) where
  pub load_proving_key : List ℕ → Result Error P.Parameters
  load_proving_key [] = err invalid_format
  load_proving_key (b ∷ bytes) = ok_or (P.read_params (b ∷ bytes)) invalid_format

  -- `zip` and `!=`.
  abbrev pub differ : List M.Scalar → List M.Scalar → Bool
  differ [] ys = false
  differ (x ∷ xs) [] = false
  differ (x ∷ xs) (y ∷ ys) = not (P.scalar_eq x y) || differ xs ys

  -- The diagnostic assembly, or the manual one where they differ.
  pub assemble_compared : AgePublic → Result Error (List M.Scalar)
  assemble_compared public = do
    publics ← map_err (assemble_public_inputs_diagnostic M public) invalid_input
    publics_manual ← map_err (assemble_public_inputs_manual M public) invalid_input
    ok (if differ publics publics_manual then publics_manual else publics)

  module _ {C : Curve} (T : TestSystem C) (env : Environment) where
    -- The part of `test_circuit_synthesis` behind a synthesis.
    abbrev pub check_synthesized :
        AgePublic → Result SynthesisError (Unit {0} × T.bellman.System) → Result Error CircuitStats
    check_synthesized public (err e) = err prover_failed
    check_synthesized public (ok (_, cs)) = do
      expected_publics ← assemble_compared public
      guard (T.bellman.is_satisfied cs) prover_failed
      ok (record {
        num_constraints = some (T.num_constraints cs);
        num_variables = some (T.num_inputs cs);
        synthesis_time_ms = some env.synthesis_time_ms;
      })

    pub test_circuit_synthesis : AgePublic → AgeWitness → Result Error CircuitStats
    test_circuit_synthesis public witness =
        check_synthesized public
          (synthesize T.pack_into_inputs T.gadgets public (some witness) T.new)

    -- What is known before a proof is made.
    pub record Prepared : Type 0 where
      pub config : RuntimeConfig
      pub publics_final : List M.Scalar
      pub validation_results : ValidationResults
      pub circuit_stats : CircuitStats

    pub prepare :
        P.Parameters → AgePublic → AgeWitness → Option RuntimeConfig → Result Error Prepared
    prepare params public witness runtime_config = do
      vk_bytes ← ok_or (P.write_vk (P.vk params)) internal
      config ← ok_or runtime_config internal
      publics_final ← assemble_compared public
      let validation_results = validate_inputs_detailed public witness
      guard validation_results.input_validation invalid_input
      circuit_stats ← test_circuit_synthesis public witness
      ok (record {
        config = config;
        publics_final = publics_final;
        validation_results = validation_results;
        circuit_stats = circuit_stats;
      })

    -- The verification before the proof is serialized, the bytes, and the verification of what the
    -- bytes parse to.
    pub serialize_verified : P.Parameters → List M.Scalar → G.Proof → Result Error (List ℕ)
    serialize_verified params publics_final proof = do
      let pvk = G.prepare_verifying_key (P.vk params)
      guard (G.verify_proof pvk proof publics_final) prover_failed
      proof_bytes ← ok_or (P.write_proof proof) prover_failed
      proof_to_verify ← ok_or (G.read_proof proof_bytes) prover_failed
      guard (G.verify_proof pvk proof_to_verify publics_final) prover_failed
      ok proof_bytes

    pub proof_of : AgePublic → ℕ → Prepared → List ℕ → AgeSnarkProofV2Extended
    proof_of public vk_id r proof_bytes = record {
      v = 2;
      vk = vk_id;
      rp_hash = public.rp_hash;
      cutoff = public.cutoff_days;
      issuer_vk_bytes = public.issuer_vk_bytes;
      cred_nullifier = public.cred_nullifier;
      direction = public.direction;
      proof = proof_bytes;
      metadata = some (record {
        generation_time_ms = env.generation_time_ms;
        platform = env.platform;
        version = env.version;
      });
      debug_info =
          if is_logging r.config.debug_level
          then some (record {
            validation_results = r.validation_results;
            circuit_stats = r.circuit_stats;
            error_trace = [];
            full_debug_log = env.full_debug_log;
            public_inputs_hex = map P.scalar_hex r.publics_final;
          })
          else none;
    }

    -- An error before the generation, a panic inside it, or what follows it.
    abbrev pub generate_after : {A D : Type 0} → Result Error A → (A → Unwinding D) → Unwinding D
    generate_after (err e) k = returned (err e)
    generate_after (ok a) k = k a

    abbrev pub then_finish : {A D : Type 0} → Unwinding A → (A → Result Error D) → Unwinding D
    then_finish panicked k = panicked
    then_finish (returned r) k = returned (r >>= k)

    -- A key that cannot be written ends the call before the runtime is initialized.
    abbrev pub after_key :
        {D : Type 0} → Option (List ℕ) → Runtime → Unwinding D × Runtime → Unwinding D × Runtime
    after_key none runtime next = (returned (err internal), runtime)
    after_key (some vk_bytes) runtime next = next

    -- With the runtime before and after; the first write of the key comes before the runtime.
    pub prove_age_snark :
        P.Parameters
        → AgePublic
        → AgeWitness
        → ℕ
        → P.Rng
        → P.Rng
        → Platform
        → Runtime
        → Unwinding AgeSnarkProofV2Extended × Runtime
    prove_age_snark params public witness vk_id rng fresh platform runtime =
        let runtime' = init_prover_runtime platform runtime in
        after_key (P.write_vk (P.vk params)) runtime (
          generate_after (prepare params public witness runtime'.config) λ r.
              then_finish
                (generate_proof_with_retry (P.create_random_proof public witness params) rng fresh)
                λ proof. serialize_verified params r.publics_final proof >>= λ proof_bytes.
                  ok (proof_of public vk_id r proof_bytes),
          runtime',
        )

    -- The values that `prove_age_snark_auto` publishes.
    pub auto_public : ℤ → List ℕ → AgeWitness → Bool → AgePublic
    auto_public cutoff_days rp_challenge witness direction = record {
      direction = direction;
      cutoff_days = cutoff_days;
      rp_hash = C.blake2s (replicate 8 0) rp_challenge;
      issuer_vk_bytes = witness.issuer_vk_bytes;
      cred_nullifier = Commit.pedersen_nullifier (pedersen_hash C) witness.c_bytes;
    }

    abbrev pub after_assembly :
        {D : Type 0}
        → Result Error (List M.Scalar)
        → Runtime
        → Unwinding D × Runtime
        → Unwinding D × Runtime
    after_assembly (err e) runtime next = (returned (err e), runtime)
    after_assembly (ok publics) runtime next = next

    pub prove_age_snark_auto :
        P.Parameters
        → ℤ
        → List ℕ
        → AgeWitness
        → ℕ
        → Bool
        → P.Rng
        → P.Rng
        → Platform
        → Runtime
        → Unwinding AgeSnarkProofV2Extended × Runtime
    prove_age_snark_auto params cutoff_days rp_challenge witness vk_id direction rng fresh platform
          runtime =
        let public = auto_public cutoff_days rp_challenge witness direction in
        after_assembly (assemble_compared public) runtime
          (prove_age_snark params public witness vk_id rng fresh platform runtime)
