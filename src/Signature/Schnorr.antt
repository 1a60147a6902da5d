-- ===== src/Signature/Schnorr.antt =====
-- Signing and verifying agree: what is signed verifies under the matching key, and what verifies
-- satisfies the Schnorr equation.
use provii_crypto.Prelude.{ℕ, ◌≡◌, refl, sym, ap, ◌∙◌, ◌↔◌, true, false, not}
use provii_crypto.Prelude.{
  Result, ◌>>=◌, List, ok, err, some, on_bind, ok-injective, Bool-cases, inl, inr,
}
use provii_crypto.Prelude.{on_ok_or, on_guard, map_err, if◌then◌else◌, not-true}
use mathlib.Core.Path.{subst}
use provii_crypto.Prelude.Bytes.{bytes_eq, bytes_eq_sound, bytes_eq_refl}
use provii_crypto.Credential.{CredMsgV2, prehash}
use provii_crypto.Signature.Primitives.{Jubjub}
use provii_crypto.Signature.{
  SigningKey, VerificationKey, Signature, verification_key, hash_challenge, sign_hash_internal,
  verify_hash_internal, signing_key_from_bytes, verification_key_from_bytes, signature_from_bytes,
  signature_to_bytes, sign_cred_v2, verify_cred_v2, sign_cred_v2_with_rp, verify_cred_v2_with_rp,
  verification_failed, nonce_from, invalid_signing_key_bytes, RedJubjubError, cred_hash, rp_hash,
  invalid_signature_bytes,
}
use provii_crypto.Signature.Keys.{generator_lem, verification_key_accepted}
use provii_crypto.Signature.Encoding.{signature_decodes, zero_signature_refused}

module _ (J : Jubjub) where
  -- `s * G == R + c * VK`.
  abbrev pub Equation : List ℕ → Signature J → VerificationKey J → Type 0
  Equation hash sig vk =
      J.scale J.generator sig.s
      ≡ J.point_add sig.r (
          J.scale vk.point
            (hash_challenge J (J.point_to_bytes sig.r) (J.point_to_bytes vk.point) hash))

  point_to_bytes_inj : (p q : J.Point) → J.point_to_bytes p ≡ J.point_to_bytes q → p ≡ q
  point_to_bytes_inj p q e =
      some_inj (sym (J.point_decodes p) ∙ ap J.point_from_bytes e ∙ J.point_decodes q)
    where
      some_inj : {a b : J.Point} → some a ≡ some b → a ≡ b
      some_inj h = cc

  decide_points :
      (p q : J.Point)
      → let r : Result RedJubjubError (Unit {0}) =
          if bytes_eq (J.point_to_bytes p) (J.point_to_bytes q)
          then ok tt
          else err verification_failed in
        ((r ≡ ok tt) ↔ (p ≡ q)) × (¬ (p ≡ q) → r ≡ err verification_failed)
  decide_points p q = elim (Bool-cases (bytes_eq (J.point_to_bytes p) (J.point_to_bytes q))) [
    | inl e ↦
        let same = point_to_bytes_inj p q (bytes_eq_sound _ _ e) in
        rw e ((λ _. same, λ _. refl), λ ne. absurd (ne same))
    | inr e ↦
        let differ : ¬ (p ≡ q) =
          λ h. false-ne-true (sym e ∙ rw h (bytes_eq_refl (J.point_to_bytes q))) in
        rw e ((λ h. cc, λ h. absurd (differ h)), λ _. refl)
  ]
    where
      false-ne-true : false ≡ true → ⊥
      false-ne-true h = cc

  -- Verification of a hash accepts exactly when the signature satisfies the Schnorr equation, and
  -- otherwise reports `VerificationFailed`.
  pub verify_hash_internal_iff :
      (hash : List ℕ) (sig : Signature J) (vk : VerificationKey J)
      → ((verify_hash_internal J hash sig vk ≡ ok tt) ↔ Equation hash sig vk)
        × (¬ Equation hash sig vk → verify_hash_internal J hash sig vk ≡ err verification_failed)
  unfolding verify_hash_internal
  verify_hash_internal_iff hash sig vk = rw generator_lem (decide_points _ _)

  -- What is signed satisfies the equation, and its R is not the identity.
  pub signed-Equation :
      (hash : List ℕ) (key : SigningKey J) (sig : Signature J)
      → sign_hash_internal J hash key ≡ ok sig
      → Equation hash sig (verification_key J key) × (J.is_identity sig.r ≡ false)
  unfolding sign_hash_internal verification_key
  signed-Equation hash key sig h =
      elim (Bool-cases (J.is_zero (nonce_from J (J.scalar_to_bytes key.scalar) hash))) [
        | inl z ↦ absurd (err-ne-ok (rw z at h))
        | inr z ↦
            subst (λ x. Equation hash x (verification_key J key) × (J.is_identity x.r ≡ false))
              (ok-injective (rw z at h))
              (rw generator_lem (
                J.scale_add _ _ _ ∙ ap (J.point_add _) (J.scale_mul _ _ _),
                J.scale_identity _ ∙ z,
              ))
      ]
    where
      err-ne-ok :
          {x : RedJubjubError} {a : Signature J}
          → ◌≡◌ {A = Result RedJubjubError (Signature J)} (err x) (ok a)
          → ⊥
      err-ne-ok h = cc

  pub signing_key-IsNonzero :
      (bytes : List ℕ) (key : SigningKey J)
      → signing_key_from_bytes J bytes ≡ ok key
      → J.is_zero key.scalar ≡ false
  unfolding signing_key_from_bytes
  signing_key-IsNonzero bytes key h =
      on_ok_or (J.scalar_from_bytes bytes) invalid_signing_key_bytes _ h λ a ea h1.
        on_guard (not (J.is_zero a)) invalid_signing_key_bytes _ h1
          λ na h2. ap (λ k. J.is_zero k.scalar) (sym (ok-injective h2)) ∙ not-true na

  -- The byte form of the public half of a signing key.
  abbrev pub public_bytes : SigningKey J → List ℕ
  public_bytes key = J.point_to_bytes (verification_key J key).point

  -- What a verifier answers on a signature with this scalar.
  abbrev pub answer : J.Scalar → Result RedJubjubError (Unit {0})
  answer s = if J.is_zero s then err invalid_signature_bytes else ok tt

  -- Verification of any hash under the byte forms of a key and of a signature made with it.
  pub hash_verifies :
      (hash bytes : List ℕ) (key : SigningKey J) (sig : Signature J)
      → signing_key_from_bytes J bytes ≡ ok key
      → sign_hash_internal J hash key ≡ ok sig
      → (verification_key_from_bytes J (public_bytes key) ≡ ok (verification_key J key))
        × ((signature_from_bytes J (signature_to_bytes J sig) >>= λ parsed.
              verify_hash_internal J hash parsed (verification_key J key))
            ≡ answer sig.s)
  hash_verifies hash bytes key sig hk hs =
      let (equation, r) = signed-Equation hash key sig hs in
      (
        (verification_key_accepted J key).1 ∙ rw (signing_key-IsNonzero bytes key hk) refl,
        elim (Bool-cases (J.is_zero sig.s)) [
          | inl z ↦ rw (z, zero_signature_refused J sig r z) refl
          | inr z ↦
              rw (z, signature_decodes J sig r z)
                ((verify_hash_internal_iff hash sig (verification_key J key)).0.1 equation)
        ],
      )

  -- A credential signature that was made verifies: under the public half of the signing key
  -- `verify_cred_v2` answers `Ok`, but for a signature whose scalar s is zero, which it refuses.
  pub sign_cred_v2-verify_cred_v2 :
      (m : CredMsgV2) (signing_key out : List ℕ)
      → sign_cred_v2 J m signing_key ≡ ok out
      → (key : SigningKey J) × (sig : Signature J) × (signing_key_from_bytes J signing_key ≡ ok key)
        × (out ≡ signature_to_bytes J sig)
        × (verify_cred_v2 J m out (public_bytes key) ≡ answer sig.s)
  unfolding sign_cred_v2 verify_cred_v2
  sign_cred_v2-verify_cred_v2 m signing_key out h =
      on_bind (signing_key_from_bytes J signing_key) _ h λ key hk h1.
        on_bind (map_err (prehash m) RedJubjubError.field_too_long) _ h1 λ bytes hb h2.
          on_bind (sign_hash_internal J (cred_hash J bytes) key) _ h2 λ sig hs h3.
            let made = sym (ok-injective h3) in
            let (vk, verified) = hash_verifies (cred_hash J bytes) signing_key key sig hk hs in
            (key, sig, hk, made, rw (made, vk, hb) verified)

  -- The same for the signature that is bound to a relying party.
  pub sign_cred_v2_with_rp-verify :
      (m : CredMsgV2) (rp signing_key out : List ℕ)
      → sign_cred_v2_with_rp J m rp signing_key ≡ ok out
      → (key : SigningKey J) × (sig : Signature J) × (signing_key_from_bytes J signing_key ≡ ok key)
        × (out ≡ signature_to_bytes J sig)
        × (verify_cred_v2_with_rp J m rp out (public_bytes key) ≡ answer sig.s)
  unfolding sign_cred_v2_with_rp verify_cred_v2_with_rp
  sign_cred_v2_with_rp-verify m rp signing_key out h =
      on_bind (signing_key_from_bytes J signing_key) _ h λ key hk h1.
        on_bind (map_err (prehash m) RedJubjubError.field_too_long) _ h1 λ bytes hb h2.
          on_bind (sign_hash_internal J (rp_hash J bytes rp) key) _ h2 λ sig hs h3.
            let made = sym (ok-injective h3) in
            let (vk, verified) = hash_verifies (rp_hash J bytes rp) signing_key key sig hk hs in
            (key, sig, hk, made, rw (made, vk, hb) verified)
