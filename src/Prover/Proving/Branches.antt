-- ===== src/Prover/Proving/Branches.antt =====
-- When `prove_age_snark` returns a proof, and which error it returns before it attempts one.
use provii_crypto.Prelude.{
  ℕ, ◌≡◌, refl, sym, ap, ◌∙◌, Bool, true, false, List, Option, some, Result, ok, err, ◌>>=◌,
}
use mathlib.Core.Path.{subst}
use provii_crypto.Commons.{Error, invalid_input, prover_failed}
use provii_crypto.PublicInputs.{Multipack, packed}
use provii_crypto.PublicInputs.Assembly.{IsTyped}
use provii_crypto.Verifier.{Groth16}
use provii_crypto.Circuit.Backend.{SynthesisError}
use provii_crypto.Circuit.Age.{AgeWitness}
use provii_crypto.Circuit.Curve.{Curve}
use provii_crypto.Circuit.Synthesis.{AgePublic, synthesize}
use provii_crypto.Prover.Runtime.{RuntimeConfig, Platform, Runtime, init_prover_runtime}
use provii_crypto.Prover.Validation.{IsValid, validate_inputs_detailed, flag_iff}
use provii_crypto.Prover.Attempts.{Unwinding, returned, generate_proof_with_retry}
use provii_crypto.Prover.Proving.{
  Groth16Prover, TestSystem, Environment, AgeSnarkProofV2Extended, check_synthesized,
  test_circuit_synthesis, Prepared, prepare, serialize_verified, proof_of, generate_after,
  then_finish, after_key, prove_age_snark,
}
use provii_crypto.Prover.Proving.Returned.{assemble_compared_ok, Satisfied, sealing}

module _ {M : Multipack} {G : Groth16 M} (P : Groth16Prover G) {C : Curve} (T : TestSystem C)
    (env : Environment) where
  seals :
      (params : P.Parameters) (xs : List M.Scalar) (proof : G.Proof) {bytes : List ℕ}
      → G.verify_proof (G.prepare_verifying_key (P.vk params)) proof xs ≡ true
      → P.write_proof proof ≡ some bytes
      → G.read_proof bytes ≡ some proof
      → serialize_verified P T env params xs proof ≡ ok bytes
  unfolding serialize_verified
  seals params xs proof v written parsed = rw (v, written, parsed, v) refl

  key_written :
      {D : Type 0} (o : Option (List ℕ)) (r : Runtime) (next : Unwinding D × Runtime)
      {bytes : List ℕ}
      → o ≡ some bytes
      → (after_key P T env o r next).0 ≡ next.0
  key_written o r next e = rw e refl

  module _ (params : P.Parameters) (p : AgePublic) (w : AgeWitness) (vk_id : ℕ) (rng fresh : P.Rng)
      (platform : Platform) (runtime : Runtime) where
    abbrev result : Unwinding AgeSnarkProofV2Extended
    result = (prove_age_snark P T env params p w vk_id rng fresh platform runtime).0

    -- What follows the preparation.
    abbrev attempt : Prepared P T env → Unwinding AgeSnarkProofV2Extended
    attempt r =
        then_finish P T env (generate_proof_with_retry (P.create_random_proof p w params) rng fresh)
          (sealing P T env params p vk_id r)

    -- With a key that can be written and a configuration, the call begins with the preparation.
    begins :
        {m : Result Error (Prepared P T env)} {vk_bytes : List ℕ} {c : RuntimeConfig}
        → P.write_vk (P.vk params) ≡ some vk_bytes
        → (init_prover_runtime platform runtime).config ≡ some c
        → prepare P T env params p w (some c) ≡ m
        → result ≡ generate_after P T env m attempt
    unfolding prove_age_snark
    begins hk hc h =
        let runtime' = init_prover_runtime platform runtime in
        key_written (P.write_vk (P.vk params)) runtime
          (generate_after P T env (prepare P T env params p w runtime'.config) attempt, runtime') hk
        ∙ ap (λ m. generate_after P T env m attempt) (ap (prepare P T env params p w) hc ∙ h)

    flag_false : ¬ IsValid p w → (validate_inputs_detailed p w).input_validation ≡ false
    flag_false n = cases (validate_inputs_detailed p w).input_validation (flag_iff p w).0
      where
        cases : (b : Bool) → (b ≡ true → IsValid p w) → b ≡ false
        cases true k = absurd (n (k refl))
        cases false k = refl

    unsatisfied :
        IsTyped p → ¬ Satisfied P T env p w → test_circuit_synthesis P T env p w ≡ err prover_failed
    unfolding test_circuit_synthesis
    unsatisfied t n = cases (synthesize T.pack_into_inputs T.gadgets p (some w) T.new) refl
      where
        rejected :
            (cs : T.bellman.System) (b : Bool)
            → T.bellman.is_satisfied cs ≡ b
            → synthesize T.pack_into_inputs T.gadgets p (some w) T.new ≡ ok (tt, cs)
            → check_synthesized P T env p (ok (tt, cs)) ≡ err prover_failed
        rejected cs true e same = absurd (n (cs, same, e))
        rejected cs false e same = rw (assemble_compared_ok P p t, e) refl

        cases :
            (r : Result SynthesisError (Unit {0} × T.bellman.System))
            → synthesize T.pack_into_inputs T.gadgets p (some w) T.new ≡ r
            → check_synthesized P T env p r ≡ err prover_failed
        cases (err e) same = refl
        cases (ok (_, cs)) same = rejected cs (T.bellman.is_satisfied cs) refl same

    -- On typed values, with a key that can be written and a configured runtime, inputs that the
    -- validation does not accept are `InvalidInput`, and accepted inputs whose trial synthesis fails
    -- or leaves a constraint unsatisfied are `ProverFailed`, before any proof is attempted.
    pub prove_age_snark_refuses :
        {vk_bytes : List ℕ} {c : RuntimeConfig}
        → IsTyped p
        → P.write_vk (P.vk params) ≡ some vk_bytes
        → (init_prover_runtime platform runtime).config ≡ some c
        → (¬ IsValid p w → result ≡ returned (err invalid_input))
          × (IsValid p w → ¬ Satisfied P T env p w → result ≡ returned (err prover_failed))
    unfolding prepare
    prove_age_snark_refuses t hk hc = (
      λ n.
          begins {m = err invalid_input} hk hc
            (rw (hk, assemble_compared_ok P p t, flag_false n) refl),
      λ v n.
          begins {m = err prover_failed} hk hc
            (rw (hk, assemble_compared_ok P p t, (flag_iff p w).1 v, unsatisfied t n) refl),
    )

    prepares :
        {vk_bytes : List ℕ} (c : RuntimeConfig)
        → IsTyped p
        → P.write_vk (P.vk params) ≡ some vk_bytes
        → IsValid p w
        → Satisfied P T env p w
        → (r : Prepared P T env) × (prepare P T env params p w (some c) ≡ ok r)
          × (r.publics_final ≡ packed M p)
    unfolding prepare test_circuit_synthesis
    prepares c t hk v (cs, same, sat) = (
      record {
        config = c;
        publics_final = packed M p;
        validation_results = validate_inputs_detailed p w;
        circuit_stats = record {
          num_constraints = some (T.num_constraints cs);
          num_variables = some (T.num_inputs cs);
          synthesis_time_ms = some env.synthesis_time_ms;
        };
      },
      rw (hk, assemble_compared_ok P p t, (flag_iff p w).1 v, same, assemble_compared_ok P p t, sat)
          refl,
      refl,
    )

    carried_bytes :
        (r : Prepared P T env) (bytes : List ℕ) → (proof_of P T env p vk_id r bytes).proof ≡ bytes
    unfolding proof_of
    carried_bytes r bytes = refl

    -- On typed values that the validation accepts and whose trial synthesis is satisfied, with a key
    -- that can be written and a configured runtime, if one of the two calls creates a proof in turn
    -- that verifies on the packed values and that its bytes parse to, the call returns a proof.
    pub prove_age_snark_succeeds :
        {vk_bytes : List ℕ} {c : RuntimeConfig} {proof : G.Proof} {proof_bytes : List ℕ}
        → IsTyped p
        → P.write_vk (P.vk params) ≡ some vk_bytes
        → (init_prover_runtime platform runtime).config ≡ some c
        → IsValid p w
        → Satisfied P T env p w
        → generate_proof_with_retry (P.create_random_proof p w params) rng fresh
          ≡ returned (ok proof)
        → G.verify_proof (G.prepare_verifying_key (P.vk params)) proof (packed M p) ≡ true
        → P.write_proof proof ≡ some proof_bytes
        → G.read_proof proof_bytes ≡ some proof
        → (out : AgeSnarkProofV2Extended) × (result ≡ returned (ok out)) × (out.proof ≡ proof_bytes)
    prove_age_snark_succeeds {c} {proof} {proof_bytes} t hk hc v sat made verifies written parsed =
        let (r, e, scalars) = prepares c t hk v sat in
        let verifies' =
          subst (λ xs. G.verify_proof (G.prepare_verifying_key (P.vk params)) proof xs ≡ true)
            (sym scalars) verifies in
        (
          proof_of P T env p vk_id r proof_bytes,
          begins hk hc e
              ∙ ap (λ u. then_finish P T env u (sealing P T env params p vk_id r)) made
              ∙ ap (λ b. returned (b >>= λ bytes. ok (proof_of P T env p vk_id r bytes)))
                  (seals params r.publics_final proof verifies' written parsed),
          carried_bytes r proof_bytes,
        )
