-- ===== src/Verifier/Verification.antt =====
-- `verify_age_snark`: exactly when it accepts.
use provii_crypto.Prelude.{ℕ, ◌≡◌, refl, sym, ap, ◌∙◌, ◌↔◌, true, List, some}
use provii_crypto.Prelude.{ok, ◌>>=◌, guard, ok_or, on_ok_or, on_guard, ok-injective}
use provii_crypto.Commons.{invalid_format, verifier_not_initialized, verification_failed}
use provii_crypto.PublicInputs.{Multipack, PublicValues, packed}
use provii_crypto.PublicInputs.Assembly.{IsTyped, assemble_ok}
use provii_crypto.Verifier.{Groth16, VerifyResult, Cell, registered, verify_age_snark}

module _ (M : Multipack) (G : Groth16 M) where
  open G use {PreparedVerifyingKey, Proof, read_proof, verify_proof}

  -- The checks one after the other, on typed inputs.
  ladder :
      (proof_bytes : List ℕ) (p : PublicValues) (vk_id : ℕ) (cell : Cell M G)
      → IsTyped p
      → verify_age_snark M G proof_bytes p vk_id cell ≡ (
          ok_or (registered M G cell vk_id) verifier_not_initialized >>= λ pvk.
          ok_or (read_proof proof_bytes) invalid_format >>= λ proof.
          guard (verify_proof pvk proof (packed M p)) verification_failed >>= λ _.
          ok (record { inputs = p; vk_id = vk_id }))
  unfolding verify_age_snark
  ladder proof_bytes p vk_id cell t = rw (assemble_ok M p t) refl

  -- The proof is one that Groth16 accepts under the key registered for the id, on the packing of
  -- the supplied values.
  abbrev pub Accepted : List ℕ → PublicValues → ℕ → Cell M G → Type 0
  Accepted proof_bytes p vk_id cell =
      (pvk : PreparedVerifyingKey) × (proof : Proof) × (registered M G cell vk_id ≡ some pvk)
      × (read_proof proof_bytes ≡ some proof)
      × (verify_proof pvk proof (packed M p) ≡ true)

  -- On typed values `verify_age_snark` returns a result exactly when a key is registered for the
  -- id, the proof bytes parse, and Groth16 accepts the proof on the eight packed inputs under that
  -- key; the result then names the values and the id that were supplied.
  pub verify_age_snark_iff :
      (proof_bytes : List ℕ) (p : PublicValues) (vk_id : ℕ) (cell : Cell M G) (res : VerifyResult)
      → IsTyped p
      → (verify_age_snark M G proof_bytes p vk_id cell ≡ ok res)
        ↔ (Accepted proof_bytes p vk_id cell × (record { inputs = p; vk_id = vk_id } ≡ res))
  verify_age_snark_iff proof_bytes p vk_id cell res t = (
    λ h.
        on_ok_or (registered M G cell vk_id) verifier_not_initialized _
          (sym (ladder proof_bytes p vk_id cell t) ∙ h)
          λ pvk hk h1. on_ok_or (read_proof proof_bytes) invalid_format _ h1 λ proof hp h2.
            on_guard (verify_proof pvk proof (packed M p)) verification_failed _ h2
              λ hv h3. ((pvk, proof, hk, hp, hv), ok-injective h3),
    λ h.
        let ((pvk, proof, hk, hp, hv), e) = h in
        ladder proof_bytes p vk_id cell t ∙ rw (hk, hp, hv) (ap ok e),
  )
