-- ===== src/Tools/SelfTest.antt =====
-- A fresh key pair passes its own test, but in three cases of negligible probability.
use provii_crypto.Prelude.{
  ℕ, true, false, ◌≡◌, refl, ◌∙◌, List, ok, err, if◌then◌else◌, Bool-cases, inl, inr,
}
use provii_crypto.Credential.{CredMsgV2}
use provii_crypto.Credential.Layout.{Fits, layout, prehash-Fits}
use provii_crypto.Signature.Primitives.{Jubjub}
use provii_crypto.Signature.{
  SigningKey, Signature, sign_cred_v2, verify_cred_v2, generate_keypair_with_rng,
  invalid_signing_key_bytes, invalid_nonce, nonce_from, hash_challenge, cred_hash,
  get_spending_key_generator, verification_key, signing_key_from_bytes, sign_hash_internal,
  signature_to_bytes,
}
use provii_crypto.Signature.Schnorr.{hash_verifies, public_bytes, answer}
use provii_crypto.Signature.Keys.{verification_key_accepted}
use provii_crypto.Tools.{sign_and_verify}

module _ (J : Jubjub) (drawn : J.Scalar) (m : CredMsgV2) (fits : Fits m) where
  abbrev pub key : SigningKey J
  key = record { scalar = drawn }

  abbrev pub nonce : J.Scalar
  nonce = nonce_from J (J.scalar_to_bytes drawn) (cred_hash J (layout m))

  abbrev pub made : Signature J
  made = record {
    r = J.scale (get_spending_key_generator J) nonce;
    s = J.scalar_add nonce (
        J.scalar_mul
          (hash_challenge J (J.point_to_bytes (J.scale (get_spending_key_generator J) nonce))
            (public_bytes J key) (cred_hash J (layout m)))
          drawn);
  }

  abbrev hash : List ℕ
  hash = cred_hash J (layout m)

  key_decodes :
      J.is_zero drawn ≡ false → signing_key_from_bytes J (J.scalar_to_bytes drawn) ≡ ok key
  key_decodes d = (verification_key_accepted J key).0 ∙ rw d refl

  hash_signed : J.is_zero nonce ≡ false → sign_hash_internal J hash key ≡ ok made
  unfolding sign_hash_internal verification_key
  hash_signed n = rw n refl

  pub signs :
      J.is_zero drawn ≡ false
      → J.is_zero nonce ≡ false
      → sign_cred_v2 J m (J.scalar_to_bytes drawn) ≡ ok (signature_to_bytes J made)
  unfolding sign_cred_v2
  signs d n = rw (key_decodes d) (rw (prehash-Fits m fits) (rw (hash_signed n) refl))

  pub verifies :
      J.is_zero drawn ≡ false
      → J.is_zero nonce ≡ false
      → verify_cred_v2 J m (signature_to_bytes J made) (public_bytes J key) ≡ answer J made.s
  unfolding verify_cred_v2
  verifies d n =
      let (vk, verified) =
        hash_verifies J hash (J.scalar_to_bytes drawn) key made (key_decodes d) (hash_signed n) in
      rw vk (rw (prehash-Fits m fits) verified)

  pub no_key :
      J.is_zero drawn ≡ true
      → sign_cred_v2 J m (J.scalar_to_bytes drawn) ≡ err invalid_signing_key_bytes
  unfolding sign_cred_v2
  no_key d = rw ((verification_key_accepted J key).0) (rw d refl)

  pub no_nonce :
      J.is_zero drawn ≡ false
      → J.is_zero nonce ≡ true
      → sign_cred_v2 J m (J.scalar_to_bytes drawn) ≡ err invalid_nonce
  unfolding sign_cred_v2 sign_hash_internal
  no_nonce d n = rw (key_decodes d) (rw (prehash-Fits m fits) (rw n refl))

  -- A message whose key id and schema fit their length bytes: the test of a fresh key pair passes,
  -- but for a zero secret, a zero nonce and a zero scalar of the signature, which it reports.
  pub sign_and_verify_lem : sign_and_verify J m (generate_keypair_with_rng J drawn) ≡ (
      if J.is_zero drawn
      then err invalid_signing_key_bytes
      else if J.is_zero nonce
      then err invalid_nonce
      else answer J made.s)
  unfolding sign_and_verify generate_keypair_with_rng
  sign_and_verify_lem = elim (Bool-cases (J.is_zero drawn)) [
    | inl d ↦ rw (no_key d) (rw d refl)
    | inr d ↦ elim (Bool-cases (J.is_zero nonce)) [
      | inl n ↦ rw (no_nonce d n) (rw (d, n) refl)
      | inr n ↦ rw (signs d n) (rw (verifies d n) (rw (d, n) refl))
    ]
  ]
