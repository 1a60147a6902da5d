-- ===== src/Issuance/Signed.antt =====
-- A signature that the issuer makes satisfies the equation that the circuit enforces.
use provii_crypto.Prelude.{ℕ, ◌≡◌, sym, ap, ap₂, ◌∙◌, List, ◌++◌, length}
use provii_crypto.PublicInputs.{bits_le_from_bytes}
use provii_crypto.Commons.{redjubjub_personalization}
use provii_crypto.Signature.Primitives.{Jubjub}
use provii_crypto.Signature.{VerificationKey, Signature, hash_challenge}
use provii_crypto.Signature.Schnorr
use provii_crypto.Circuit.Curve.{Curve, le_value}
use provii_crypto.Circuit.Redjubjub.Sound
use provii_crypto.Issuance.{Subgroup}

module _ {J : Jubjub} {C : Curve} (U : Subgroup J C) where
  open U use {embed}

  -- The two crates hash the same bytes for the challenge.
  same_challenge :
      (r vk : J.Point) (digest : List ℕ)
      → J.blake2s_personal redjubjub_personalization
          (J.point_to_bytes r ++ (J.point_to_bytes vk ++ digest))
        ≡ Sound.challenge C (embed r) (embed vk) digest redjubjub_personalization
  same_challenge r vk digest =
      U.blake2s_tagged _ _
      ∙ ap₂ (λ a b. C.blake2s redjubjub_personalization (a ++ (b ++ digest)))
          (sym (U.embed_bytes r)) (sym (U.embed_bytes vk))

  -- The subgroup's equation becomes the one on the curve.
  pub Equation-embed :
      (hash : List ℕ) (sig : Signature J) (vk : VerificationKey J)
      → Schnorr.Equation J hash sig vk
      → Sound.Equation C
          (embed sig.r)
          (bits_le_from_bytes (J.scalar_to_bytes sig.s))
          (embed vk.point)
          hash
          redjubjub_personalization
  unfolding hash_challenge
  Equation-embed hash sig vk e =
      let digest =
        J.blake2s_personal redjubjub_personalization
          (J.point_to_bytes sig.r ++ (J.point_to_bytes vk.point ++ hash)) in
      let same = same_challenge sig.r vk.point hash in
      ap (λ g. C.scale g (le_value (J.scalar_to_bytes sig.s))) (sym U.embed_generator)
      ∙ sym (U.embed_scale J.generator sig.s)
      ∙ ap embed e
      ∙ U.embed_add _ _
      ∙ ap (C.point_add (embed sig.r)) (
          U.embed_wide vk.point digest (ap length same ∙ C.length-blake2s _ _)
          ∙ ap (λ d. C.scale (embed vk.point) (le_value d)) same)
