-- ===== src/Verifier/Soundness.antt =====
-- The verifier and the circuit together: what an accepted proof shows, where Groth16 is sound for the
-- registered key.
mod Tests
use provii_crypto.Prelude.{ℕ, ◌≡◌, sym, ◌∙◌, true, List, [], Option, some, ok}
use mathlib.Core.Path.{subst}
use provii_crypto.PublicInputs.{Multipack, PublicValues, packed}
use provii_crypto.PublicInputs.Assembly.{IsTyped}
use provii_crypto.Verifier.{Groth16, VerifyResult, Cell, registered, verify_age_snark}
use provii_crypto.Verifier.Verification.{verify_age_snark_iff}
use provii_crypto.Circuit.Backend.{Bellman}
use provii_crypto.Circuit.Age.{AgeWitness}
use provii_crypto.Circuit.Curve.{Curve, Sapling, Exposing}
use provii_crypto.Circuit.Synthesis.{AgePublic, synthesize}
use provii_crypto.Circuit.Synthesis.Statement.{Statement}
use provii_crypto.Circuit.Synthesis.Sound.{synthesize_sound}

-- An assignment that satisfies the synthesized circuit against the given public inputs.
pub record Satisfying (M : Multipack) (C : Curve) (inputs : List M.Scalar) : Type 1 where
  pub bellman : Bellman
  pub exposing : Exposing bellman M
  pub gadgets : Sapling bellman C
  pub public : AgePublic
  pub witness : Option AgeWitness
  pub start : bellman.System
  pub finish : bellman.System
  pub public-IsTyped : IsTyped public
  pub public_inputs_are : exposing.public_inputs ≡ inputs
  pub exposed_nothing : exposing.exposed start ≡ []
  pub synthesized :
      synthesize exposing.pack_into_inputs gadgets public witness start ≡ ok (tt, finish)
  pub satisfied : bellman.is_satisfied finish ≡ true

module _ (M : Multipack) (G : Groth16 M) (C : Curve) where
  -- Groth16's soundness for a key of the circuit: an accepted proof has a satisfying assignment.
  abbrev pub IsSoundKey : G.PreparedVerifyingKey → Type 1
  IsSoundKey pvk =
      (proof : G.Proof) (inputs : List M.Scalar)
      → G.verify_proof pvk proof inputs ≡ true
      → Satisfying M C inputs

  -- If the key registered for the id is one for which Groth16 is sound, then a proof that
  -- `verify_age_snark` accepts on typed values shows the circuit's statement of these values.
  pub verify_age_snark_sound :
      (proof_bytes : List ℕ) (p : PublicValues) (vk_id : ℕ) (cell : Cell M G) (res : VerifyResult)
      (pvk : G.PreparedVerifyingKey)
      → IsTyped p
      → registered M G cell vk_id ≡ some pvk
      → IsSoundKey pvk
      → verify_age_snark M G proof_bytes p vk_id cell ≡ ok res
      → Statement C p
  verify_age_snark_sound proof_bytes p vk_id cell res pvk t key sound h =
      let ((pvk', proof, found, parsed, accepted), _) =
        (verify_age_snark_iff M G proof_bytes p vk_id cell res t).0 h in
      let same : pvk' ≡ pvk = some-injective (sym found ∙ key) in
      let a =
        sound proof (packed M p)
          (subst (λ k. G.verify_proof k proof (packed M p) ≡ true) same accepted) in
      synthesize_sound a.exposing a.gadgets a.public a.witness p a.start {t = a.finish}
        a.public-IsTyped t a.public_inputs_are a.exposed_nothing a.synthesized a.satisfied
    where
      some-injective : {A : Type 0} {x y : A} → ◌≡◌ {A = Option A} (some x) (some y) → x ≡ y
      some-injective e = cc
