-- ===== src/Signature/Keys.antt =====
-- Keys: which byte strings are accepted, and that a key pair's public half is accepted.
use provii_crypto.Prelude.{◌≡◌, refl, ap, ◌∙◌, Bool}
use provii_crypto.Prelude.{ok, err, inl, inr, Bool-cases, if◌then◌else◌}
use provii_crypto.Signature.Primitives.{Jubjub}
use provii_crypto.Signature.{
  SigningKey, get_spending_key_generator, signing_key_from_bytes, verification_key,
  verification_key_from_bytes, invalid_signing_key_bytes, invalid_verification_key_bytes,
}

module _ (J : Jubjub) where
  pub generator_lem : get_spending_key_generator J ≡ J.generator
  unfolding get_spending_key_generator
  generator_lem = rw (J.generator_decodes, get_spending_key_generator)

  pub verification_key-point :
      (k : SigningKey J) → (verification_key J k).point ≡ J.scale J.generator k.scalar
  unfolding verification_key
  verification_key-point k = ap (λ g. J.scale g k.scalar) generator_lem

  -- A key pair survives its byte form: a signing key parses to itself and its public half parses to
  -- the public half, but for the zero scalar, for which both byte forms are refused.
  pub verification_key_accepted :
      (k : SigningKey J)
      → (signing_key_from_bytes J (J.scalar_to_bytes k.scalar)
          ≡ (if J.is_zero k.scalar then err invalid_signing_key_bytes else ok k))
        × (verification_key_from_bytes J (J.point_to_bytes (verification_key J k).point) ≡ (
            if J.is_zero k.scalar
            then err invalid_verification_key_bytes
            else ok (verification_key J k)))
  unfolding verification_key_from_bytes signing_key_from_bytes
  verification_key_accepted k = elim (Bool-cases (J.is_zero k.scalar)) [
    | inl h ↦ (rw (J.scalar_decodes, h) refl, rw (J.point_decodes, identity h, h) refl)
    | inr h ↦ (rw (J.scalar_decodes, h) refl, rw (J.point_decodes, identity h, h) refl)
  ]
    where
      identity :
          {b : Bool} → J.is_zero k.scalar ≡ b → J.is_identity (verification_key J k).point ≡ b
      identity h = ap J.is_identity (verification_key-point k) ∙ J.scale_identity k.scalar ∙ h
