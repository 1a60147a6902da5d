-- ===== src/Prover/Proving/Composed.antt =====
-- The prover and the verifier together: what is proved is accepted, and what is refused, with which
-- error.
use provii_crypto.Prelude.{
  ℕ, ◌≡◌, ◌⊎◌, refl, sym, ap, ◌∙◌, Bool, true, List, some, ok, on_ok_or, on_guard, ok-injective,
  replicate,
}
use mathlib.Core.Path.{subst}
use provii_crypto.Prelude.Int.{ℤ}
use provii_crypto.Commons.{prover_failed}
use provii_crypto.Commit
use provii_crypto.PublicInputs.{Multipack, PublicValues, packed}
use provii_crypto.PublicInputs.Assembly.{IsTyped}
use provii_crypto.Verifier.{Groth16, Cell, registered, verify_age_snark}
use provii_crypto.Verifier.Verification.{verify_age_snark_iff}
use provii_crypto.Circuit.Age.{AgeWitness}
use provii_crypto.Circuit.Curve.{Curve, pedersen_hash}
use provii_crypto.Circuit.Synthesis.{AgePublic}
use provii_crypto.Prover.Runtime.{Platform, Runtime}
use provii_crypto.Prover.Validation.{IsValid}
use provii_crypto.Prover.Attempts.{
  returned, created, synthesis_error, unwound, generate_proof_with_retry_iff,
}
use provii_crypto.Prover.Proving.{
  Groth16Prover, TestSystem, Environment, AgeSnarkProofV2Extended, serialize_verified, proof_of,
  prove_age_snark, auto_public, prove_age_snark_auto,
}
use provii_crypto.Prover.Proving.Returned.{assemble_compared_ok, Satisfied, Steps-of}

-- The values that a proof carries, as the verifier takes them.
abbrev pub carried : AgeSnarkProofV2Extended → PublicValues
carried out = record {
  direction = out.direction;
  cutoff_days = out.cutoff;
  rp_hash = out.rp_hash;
  issuer_vk_bytes = out.issuer_vk_bytes;
  cred_nullifier = out.cred_nullifier;
}

module _ {M : Multipack} {G : Groth16 M} (P : Groth16Prover G) {C : Curve} (T : TestSystem C)
    (env : Environment) where
  -- Bytes that were sealed parse to a proof which verifies.
  parses :
      (params : P.Parameters) (xs : List M.Scalar) (proof : G.Proof) {bytes : List ℕ}
      → serialize_verified P T env params xs proof ≡ ok bytes
      → (again : G.Proof) × (G.read_proof bytes ≡ some again)
        × (G.verify_proof (G.prepare_verifying_key (P.vk params)) again xs ≡ true)
  unfolding serialize_verified
  parses params xs proof h =
      let pvk = G.prepare_verifying_key (P.vk params) in
      on_guard (G.verify_proof pvk proof xs) prover_failed _ h λ _ h1.
        on_ok_or (P.write_proof proof) prover_failed _ h1 λ bytes _ h2.
          on_ok_or (G.read_proof bytes) prover_failed _ h2 λ again e h3.
            on_guard (G.verify_proof pvk again xs) prover_failed _ h3
              λ v h4. (again, ap G.read_proof (sym (ok-injective h4)) ∙ e, v)

  -- A returned proof has version 2 and carries the values and the key id that it was made for, and
  -- the verifier, with the prover's key registered for that id, accepts it on the values it carries.
  pub prove_age_snark-verify :
      (params : P.Parameters) (p : AgePublic) (w : AgeWitness) (vk_id : ℕ) (rng fresh : P.Rng)
      (platform : Platform) (runtime : Runtime) (cell : Cell M G) {out : AgeSnarkProofV2Extended}
      → IsTyped p
      → registered M G cell vk_id ≡ some (G.prepare_verifying_key (P.vk params))
      → (prove_age_snark P T env params p w vk_id rng fresh platform runtime).0 ≡ returned (ok out)
      → (out.v ≡ 2)
        × (out.vk ≡ vk_id)
        × (carried out ≡ p)
        × (verify_age_snark M G out.proof (carried out) out.vk cell
            ≡ ok (record { inputs = carried out; vk_id = out.vk }))
  unfolding proof_of
  prove_age_snark-verify params p w vk_id rng fresh platform runtime cell {out} t key h =
      let s = Steps-of P T env params p w vk_id rng fresh platform runtime h in
      let (again, e, v) = parses params s.prepared.publics_final s.proof s.sealed in
      let scalars : s.prepared.publics_final ≡ packed M p =
        ok-injective (sym s.ready.publics ∙ assemble_compared_ok P p t) in
      let pvk = G.prepare_verifying_key (P.vk params) in
      let made = proof_of P T env p vk_id s.prepared s.proof_bytes in
      let accepted : verify_age_snark M G made.proof (carried made) made.vk cell
          ≡ ok (record { inputs = carried made; vk_id = made.vk }) =
        (verify_age_snark_iff M G s.proof_bytes p vk_id cell (record { inputs = p; vk_id = vk_id })
            t).1
          (
            (pvk, again, key, e, subst (λ xs. G.verify_proof pvk again xs ≡ true) scalars v),
            refl,
          ) in
      let at = λ (o : AgeSnarkProofV2Extended).
        (o.v ≡ 2)
        × (o.vk ≡ vk_id)
        × (carried o ≡ p)
        × (verify_age_snark M G o.proof (carried o) o.vk cell
            ≡ ok (record { inputs = carried o; vk_id = o.vk })) in
      subst at s.packaged (refl, refl, refl, accepted)

  -- What was sealed are the written bytes of the proof.
  sealed_bytes :
      (params : P.Parameters) (xs : List M.Scalar) (proof : G.Proof) {bytes : List ℕ}
      → serialize_verified P T env params xs proof ≡ ok bytes
      → P.write_proof proof ≡ some bytes
  unfolding serialize_verified
  sealed_bytes params xs proof h =
      let pvk = G.prepare_verifying_key (P.vk params) in
      on_guard (G.verify_proof pvk proof xs) prover_failed _ h λ _ h1.
        on_ok_or (P.write_proof proof) prover_failed _ h1 λ bytes w h2.
          on_ok_or (G.read_proof bytes) prover_failed _ h2 λ again _ h3.
            on_guard (G.verify_proof pvk again xs) prover_failed _ h3
              λ _ h4. w ∙ ap some (ok-injective h4)

  -- The first call of bellman's prover made the proof, or the second one did after the first had
  -- failed or panicked.
  abbrev pub IsMade : P.Parameters → AgePublic → AgeWitness → P.Rng → P.Rng → G.Proof → Type 0
  IsMade params p w rng fresh proof =
      let call = P.create_random_proof p w params in
      (call rng ≡ created proof)
      ⊎ (((call rng ≡ synthesis_error) ⊎ (call rng ≡ unwound)) × (call fresh ≡ created proof))

  -- A proof is returned only for inputs that the validation accepts, whose trial synthesis succeeds
  -- with every constraint satisfied; and the returned bytes are those of a proof that the first call
  -- of bellman's prover made, or the second one after the first had failed or panicked.
  pub prove_age_snark_checked :
      (params : P.Parameters) (p : AgePublic) (w : AgeWitness) (vk_id : ℕ) (rng fresh : P.Rng)
      (platform : Platform) (runtime : Runtime) {out : AgeSnarkProofV2Extended}
      → (prove_age_snark P T env params p w vk_id rng fresh platform runtime).0 ≡ returned (ok out)
      → IsValid p w
        × Satisfied P T env p w
        × ((proof : G.Proof) × (P.write_proof proof ≡ some out.proof)
            × IsMade params p w rng fresh proof)
  unfolding proof_of
  prove_age_snark_checked params p w vk_id rng fresh platform runtime h =
      let s = Steps-of P T env params p w vk_id rng fresh platform runtime h in
      let from =
        (generate_proof_with_retry_iff (P.create_random_proof p w params) rng fresh s.proof).0
          s.made in
      let bytes : P.write_proof s.proof ≡ some s.proof_bytes =
        sealed_bytes params s.prepared.publics_final s.proof s.sealed in
      let kept = ap (λ (o : AgeSnarkProofV2Extended). some o.proof) s.packaged in
      (s.ready.valid, s.ready.satisfied, (s.proof, bytes ∙ kept, from))

  -- The convenience function: a returned proof carries the Blake2s hash of the challenge, the issuer key of
  -- the witness and the nullifier of its commitment, and the verifier accepts it on these, if they
  -- are typed and the prover's key is registered.
  pub prove_age_snark_auto-verify :
      (params : P.Parameters) (cutoff_days : ℤ) (rp_challenge : List ℕ) (w : AgeWitness) (vk_id : ℕ)
      (direction : Bool) (rng fresh : P.Rng) (platform : Platform) (runtime : Runtime)
      (cell : Cell M G) {out : AgeSnarkProofV2Extended}
      → IsTyped (auto_public P T env cutoff_days rp_challenge w direction)
      → registered M G cell vk_id ≡ some (G.prepare_verifying_key (P.vk params))
      → (prove_age_snark_auto P T env params cutoff_days rp_challenge w vk_id direction rng fresh
          platform runtime).0
        ≡ returned (ok out)
      → (out.cutoff ≡ cutoff_days)
        × (out.direction ≡ direction)
        × (out.rp_hash ≡ C.blake2s (replicate 8 0) rp_challenge)
        × (out.issuer_vk_bytes ≡ w.issuer_vk_bytes)
        × (out.cred_nullifier ≡ Commit.pedersen_nullifier (pedersen_hash C) w.c_bytes)
        × (verify_age_snark M G out.proof (carried out) out.vk cell
            ≡ ok (record { inputs = carried out; vk_id = out.vk }))
  unfolding prove_age_snark_auto auto_public
  prove_age_snark_auto-verify params cutoff_days rp_challenge w vk_id direction rng fresh platform
        runtime cell t key h =
      let p = auto_public P T env cutoff_days rp_challenge w direction in
      let h' = rw (assemble_compared_ok P p t) at h in
      let (_, _, same, accepted) =
        prove_age_snark-verify params p w vk_id rng fresh platform runtime cell t key h' in
      (
        ap (λ (v : PublicValues). v.cutoff_days) same,
        ap (λ (v : PublicValues). v.direction) same,
        ap (λ (v : PublicValues). v.rp_hash) same,
        ap (λ (v : PublicValues). v.issuer_vk_bytes) same,
        ap (λ (v : PublicValues). v.cred_nullifier) same,
        accepted,
      )
