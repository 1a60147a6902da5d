-- ===== src/Issuance/Verified.antt =====
-- From the issuer to the verifier: an issued credential gives a proof, and the proof is accepted.
use provii_crypto.Prelude.{
  ℕ, ◌<◌, ◌≡◌, sym, ap, ◌∙◌, arith, true, List, [], some, ok, length, length-append, replicate,
}
use provii_crypto.PublicInputs.{Multipack, packed}
use provii_crypto.PublicInputs.Assembly
use provii_crypto.Signature.Primitives.{Jubjub}
use provii_crypto.Verifier.{Groth16, Cell, registered, verify_age_snark}
use provii_crypto.Circuit.Backend.{IsHonest}
use provii_crypto.Circuit.Age.{AgeWitness}
use provii_crypto.Circuit.Curve.{Curve, Exposing, IsHonestSapling, IsHonestExposing}
use provii_crypto.Circuit.Synthesis.{AgePublic, synthesize}
use provii_crypto.Prover.Runtime.{Platform, Runtime, RuntimeConfig, init_prover_runtime}
use provii_crypto.Prover.Validation.{IsDay, IsValid}
use provii_crypto.Prover.Attempts.{returned, generate_proof_with_retry}
use provii_crypto.Prover.Proving.{
  Groth16Prover, TestSystem, Environment, AgeSnarkProofV2Extended, prove_age_snark,
}
use provii_crypto.Prover.Proving.Returned.{Satisfied}
use provii_crypto.Prover.Proving.Composed.{carried, prove_age_snark-verify}
use provii_crypto.Prover.Proving.Branches.{prove_age_snark_succeeds}
use provii_crypto.Issuance.{Subgroup}
use provii_crypto.Issuance.Proved.{IsIssued, IsIssued-Issued, issued_credential_synthesizes}

-- Groth16 is complete at an input: where the trial synthesis is satisfied, a call creates a proof that
-- verifies on the packed values, and that can be written and read back.
pub record IsComplete {M : Multipack} {G : Groth16 M} (P : Groth16Prover G) {C : Curve}
    (T : TestSystem C) (env : Environment) (params : P.Parameters) (p : AgePublic) (w : AgeWitness)
    (rng fresh : P.Rng) : Type 0 where
  pub proof : G.Proof
  pub proof_bytes : List ℕ
  pub creates :
      Satisfied P T env p w
      → generate_proof_with_retry (P.create_random_proof p w params) rng fresh ≡ returned (ok proof)
  pub verifies :
      Satisfied P T env p w
      → G.verify_proof (G.prepare_verifying_key (P.vk params)) proof (packed M p) ≡ true
  pub written : P.write_proof proof ≡ some proof_bytes
  pub read : G.read_proof proof_bytes ≡ some proof

module _ {M : Multipack} {G : Groth16 M} (P : Groth16Prover G) {J : Jubjub} {C : Curve}
    (U : Subgroup J C) (T : TestSystem C) (env : Environment) (E : Exposing T.bellman M) where
  -- The trial system is that of the exposed inputs, and it starts empty and satisfied.
  pub record IsTrial (p : AgePublic) : Type 0 where
    pub packs : E.pack_into_inputs ≡ T.pack_into_inputs
    pub inputs : E.public_inputs ≡ packed M p
    pub nothing : E.exposed T.new ≡ []
    pub satisfied : T.bellman.is_satisfied T.new ≡ true

  module _ (H : IsHonest T.bellman) (K : IsHonestSapling T.gadgets) (X : IsHonestExposing E)
      (p : AgePublic) (w : AgeWitness) (t : Assembly.IsTyped p) (i : IsIssued J C p w) where
    issued-Satisfied : IsTrial p → Satisfied P T env p w
    issued-Satisfied trial =
        let (cs, e, same) =
          issued_credential_synthesizes U E T.gadgets H K X p w T.new t i trial.inputs
            trial.nothing in
        (
          cs,
          ap (λ pack. synthesize pack T.gadgets p (some w) T.new) (sym trial.packs) ∙ e,
          same ∙ trial.satisfied,
        )

    issued-IsValid :
        IsDay p.cutoff_days
        → IsDay w.dob_days
        → w.iat < w.exp
        → ¬ (w.c_bytes ≡ replicate 32 0)
        → IsValid p w
    issued-IsValid cutoff dob times commitment =
        let issued = IsIssued-Issued U p w i in
        let length-sig : length w.sig_rj_bytes ≡ 64 =
          ap length issued.sig_is
          ∙ omega (
            arith,
            length-append (C.point_to_bytes issued.r_point) issued.s_bytes,
            C.length-point_to_bytes issued.r_point,
            issued.length-s_bytes,
          ) in
        (cutoff, dob, i.length-r_bits, length-sig, times, commitment)

    -- From the issuer to the verifier: with the key registered, written and complete for the input, and
    -- a configured runtime, an issued credential whose dates and times the prover's validation admits
    -- gives a proof that carries the public values, and the verifier accepts it on them.
    pub issued_credential_verifies :
        (params : P.Parameters) (vk_id : ℕ) (rng fresh : P.Rng) (platform : Platform)
        (runtime : Runtime) (cell : Cell M G) {vk_bytes : List ℕ} {c : RuntimeConfig}
        → IsTrial p
        → IsDay p.cutoff_days
        → IsDay w.dob_days
        → w.iat < w.exp
        → ¬ (w.c_bytes ≡ replicate 32 0)
        → IsComplete P T env params p w rng fresh
        → P.write_vk (P.vk params) ≡ some vk_bytes
        → (init_prover_runtime platform runtime).config ≡ some c
        → registered M G cell vk_id ≡ some (G.prepare_verifying_key (P.vk params))
        → (out : AgeSnarkProofV2Extended) × ((prove_age_snark P T env params p w vk_id rng fresh
              platform runtime).0
            ≡ returned (ok out))
          × (carried out ≡ p)
          × (verify_age_snark M G out.proof (carried out) out.vk cell
              ≡ ok (record { inputs = carried out; vk_id = out.vk }))
    issued_credential_verifies params vk_id rng fresh platform runtime cell trial cutoff dob times
          commitment complete written config key =
        let sat = issued-Satisfied trial in
        let (out, made, _) =
          prove_age_snark_succeeds P T env params p w vk_id rng fresh platform runtime t written
            config (issued-IsValid cutoff dob times commitment) sat (complete.creates sat)
            (complete.verifies sat) complete.written complete.read in
        let (_, _, same, accepted) =
          prove_age_snark-verify P T env params p w vk_id rng fresh platform runtime cell t key
            made in
        (out, made, same, accepted)
