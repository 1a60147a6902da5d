-- ===== src/Prover/Proving/Returned.antt =====
-- What a proof that `prove_age_snark` returns has passed, and that the verifier accepts it.
use provii_crypto.Prelude.{
  ℕ, ◌≡◌, refl, ap, ◌∙◌, arith, Bool, true, List, Option, some, none, Result, ok, err, ◌>>=◌,
  on_bind, on_ok_or, on_guard, ok-injective, if◌then◌else◌,
}
use provii_crypto.Commons.{Error, internal, invalid_input, prover_failed}
use provii_crypto.PublicInputs.{
  Multipack, packed, assemble_public_inputs_diagnostic, assemble_public_inputs_canonical,
}
use provii_crypto.PublicInputs.Assembly.{IsTyped, assemble_ok}
use provii_crypto.Verifier.{Groth16}
use provii_crypto.Circuit.Backend.{SynthesisError}
use provii_crypto.Circuit.Age.{AgeWitness}
use provii_crypto.Circuit.Curve.{Curve}
use provii_crypto.Circuit.Synthesis.{AgePublic, synthesize}
use provii_crypto.Prover.Runtime.{RuntimeConfig, Platform, Runtime, init_prover_runtime}
use provii_crypto.Prover.Validation.{IsValid, validate_inputs_detailed, flag_iff}
use provii_crypto.Prover.Attempts.{Unwinding, returned, panicked, generate_proof_with_retry}
use provii_crypto.Prover.Proving.{
  Groth16Prover, TestSystem, Environment, CircuitStats, AgeSnarkProofV2Extended, differ,
  assemble_compared, check_synthesized, test_circuit_synthesis, Prepared, prepare,
  serialize_verified, proof_of, generate_after, then_finish, after_key, prove_age_snark,
}

returned-injective :
    {A : Type 0} {a b : Result Error A} → ◌≡◌ {A = Unwinding A} (returned a) (returned b) → a ≡ b
returned-injective h = cc

module _ {M : Multipack} {G : Groth16 M} (P : Groth16Prover G) where
  -- The two assemblies are the same, so that either is the packing.
  pub assemble_compared_ok : (p : AgePublic) → IsTyped p → assemble_compared P p ≡ ok (packed M p)
  unfolding assemble_compared assemble_public_inputs_diagnostic assemble_public_inputs_canonical
  assemble_compared_ok p t = rw (assemble_ok M p t) (either (differ P (packed M p) (packed M p)))
    where
      either :
          (b : Bool)
          → ◌≡◌ {A = Result Error (List M.Scalar)}
              (ok (if b then packed M p else packed M p))
              (ok (packed M p))
      either b = ground arith

  module _ {C : Curve} (T : TestSystem C) (env : Environment) where
    -- The trial synthesis succeeded and its system is satisfied.
    abbrev pub Satisfied : AgePublic → AgeWitness → Type 0
    Satisfied p w =
        (cs : T.bellman.System) × (synthesize T.pack_into_inputs T.gadgets p (some w) T.new
          ≡ ok (tt, cs))
        × (T.bellman.is_satisfied cs ≡ true)

    satisfied_of :
        (p : AgePublic) (w : AgeWitness) {stats : CircuitStats}
        → test_circuit_synthesis P T env p w ≡ ok stats
        → Satisfied p w
    unfolding test_circuit_synthesis
    satisfied_of p w h = cases (synthesize T.pack_into_inputs T.gadgets p (some w) T.new) refl h
      where
        cases :
            (r : Result SynthesisError (Unit {0} × T.bellman.System)) {stats : CircuitStats}
            → synthesize T.pack_into_inputs T.gadgets p (some w) T.new ≡ r
            → check_synthesized P T env p r ≡ ok stats
            → Satisfied p w
        cases (err e) same h = absurd (cc)
        cases (ok (_, cs)) same h = on_bind (assemble_compared P p) _ h λ _ _ h1.
            on_guard (T.bellman.is_satisfied cs) prover_failed _ h1 λ sat _. (cs, same, sat)

    -- What preparation has established.
    pub record IsReady (p : AgePublic) (w : AgeWitness) (r : Prepared P T env) : Type 0 where
      pub publics : assemble_compared P p ≡ ok r.publics_final
      pub valid : IsValid p w
      pub satisfied : Satisfied p w

    IsReady-of :
        (params : P.Parameters) (p : AgePublic) (w : AgeWitness) (c : Option RuntimeConfig)
        {r : Prepared P T env}
        → prepare P T env params p w c ≡ ok r
        → IsReady p w r
    unfolding prepare
    IsReady-of params p w c h = on_ok_or (P.write_vk (P.vk params)) internal _ h λ _ _ h1.
        on_ok_or c internal _ h1 λ _ _ h2. on_bind (assemble_compared P p) _ h2 λ scalars e h3.
          on_guard (validate_inputs_detailed p w).input_validation invalid_input _ h3 λ v h4.
            on_bind (test_circuit_synthesis P T env p w) _ h4 λ stats sat h5. record {
              publics = e ∙ ap (λ (r : Prepared P T env). ok r.publics_final) (ok-injective h5);
              valid = (flag_iff p w).0 v;
              satisfied = satisfied_of p w sat;
            }

    -- A returned proof came from every step.
    pub record Steps (params : P.Parameters) (p : AgePublic) (w : AgeWitness) (vk_id : ℕ)
        (rng fresh : P.Rng) (out : AgeSnarkProofV2Extended) : Type 0 where
      pub prepared : Prepared P T env
      pub ready : IsReady p w prepared
      pub proof : G.Proof
      pub proof_bytes : List ℕ
      pub made :
          generate_proof_with_retry (P.create_random_proof p w params) rng fresh
          ≡ returned (ok proof)
      pub sealed : serialize_verified P T env params prepared.publics_final proof ≡ ok proof_bytes
      pub packaged : proof_of P T env p vk_id prepared proof_bytes ≡ out

    -- What follows a proof that was made.
    abbrev pub sealing :
        P.Parameters
        → AgePublic
        → ℕ
        → Prepared P T env
        → G.Proof
        → Result Error AgeSnarkProofV2Extended
    sealing params p vk_id r proof =
        serialize_verified P T env params r.publics_final proof >>= λ proof_bytes.
        ok (proof_of P T env p vk_id r proof_bytes)

    module _ (params : P.Parameters) (p : AgePublic) (w : AgeWitness) (vk_id : ℕ)
        (rng fresh : P.Rng) {out : AgeSnarkProofV2Extended} where
      generated :
          (r : Prepared P T env) (u : Unwinding G.Proof)
          → IsReady p w r
          → generate_proof_with_retry (P.create_random_proof p w params) rng fresh ≡ u
          → then_finish P T env u (sealing params p vk_id r) ≡ returned (ok out)
          → Steps params p w vk_id rng fresh out
      generated r panicked ready same h = absurd (cc)
      generated r (returned (err e)) ready same h = absurd (cc)
      generated r (returned (ok proof)) ready same h =
          on_bind (serialize_verified P T env params r.publics_final proof) _ (returned-injective h)
            λ bytes sealed e. record {
              prepared = r;
              ready = ready;
              proof = proof;
              proof_bytes = bytes;
              made = same;
              sealed = sealed;
              packaged = ok-injective e;
            }

      prepared_as :
          (c : Option RuntimeConfig) (m : Result Error (Prepared P T env))
          → prepare P T env params p w c ≡ m
          → generate_after P T env m (λ r.
            then_finish P T env
              (generate_proof_with_retry (P.create_random_proof p w params) rng fresh)
              (sealing params p vk_id r))
            ≡ returned (ok out)
          → Steps params p w vk_id rng fresh out
      prepared_as c (err e) same h = absurd (cc)
      prepared_as c (ok r) same h =
          generated r (generate_proof_with_retry (P.create_random_proof p w params) rng fresh)
            (IsReady-of params p w c same) refl h

      pub Steps-of :
          (platform : Platform) (runtime : Runtime)
          → (prove_age_snark P T env params p w vk_id rng fresh platform runtime).0
            ≡ returned (ok out)
          → Steps params p w vk_id rng fresh out
      unfolding prove_age_snark
      Steps-of platform runtime h =
          let c = (init_prover_runtime platform runtime).config in
          prepared_as c (prepare P T env params p w c) refl
            (key (P.write_vk (P.vk params)) runtime _ h)
        where
          key :
              (o : Option (List ℕ)) (r : Runtime)
              (next : Unwinding AgeSnarkProofV2Extended × Runtime)
              → (after_key P T env o r next).0 ≡ returned (ok out)
              → next.0 ≡ returned (ok out)
          key none r next h = absurd (cc)
          key (some _) r next h = h
