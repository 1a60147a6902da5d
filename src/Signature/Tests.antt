-- ===== src/Signature/Tests.antt =====
-- The theorems at concrete keys and messages, in the group of the naturals.
use provii_crypto.Prelude.{ℕ, ◌≡◌, ◌↔◌, refl, Bool, false}
use provii_crypto.Prelude.{List, ◌++◌, replicate, ok, err}
use provii_crypto.Credential.{cred_v2_prehash_bytes}
use provii_crypto.Credential.Tests.{sample}
use provii_crypto.Signature.Example.{group, encode_scalar}
use provii_crypto.Signature.{
  verification_key_from_bytes, SigningKey, Signature, signing_key_from_bytes, verification_key,
  signature_from_bytes, signature_to_bytes, sign_hash_internal, verify_hash_internal, sign_cred_v2,
  sign_cred_v2_with_rp, verify_cred_v2, verify_cred_v2_with_rp, verification_failed, nonce_from,
  hash_challenge, get_spending_key_generator,
}
use provii_crypto.Signature.Keys.{verification_key_accepted}
use provii_crypto.Signature.Encoding.{signature_from_bytes_iff}
use provii_crypto.Signature.Schnorr.{
  Equation, verify_hash_internal_iff, sign_cred_v2-verify_cred_v2, sign_cred_v2_with_rp-verify,
  public_bytes, answer,
}

abbrev key : SigningKey group
key = record { scalar = 5 }

abbrev signed : Signature group
signed = record { r = 7; s = 3 }

verification_key_accepted_example :
    (signing_key_from_bytes group (encode_scalar 5) ≡ ok key)
    × (verification_key_from_bytes group (group.point_to_bytes (verification_key group key).point)
        ≡ ok (verification_key group key))
verification_key_accepted_example = verification_key_accepted group key

signature_from_bytes_iff_example :
    (signature_from_bytes group (encode_scalar 7 ++ encode_scalar 3) ≡ ok signed) ↔ (
      (signature_to_bytes group signed ≡ encode_scalar 7 ++ encode_scalar 3)
      × (◌≡◌ {A = Bool} false false)
      × (◌≡◌ {A = Bool} false false))
signature_from_bytes_iff_example =
    signature_from_bytes_iff group (encode_scalar 7 ++ encode_scalar 3) signed refl

verify_hash_internal_iff_example :
    ((verify_hash_internal group (replicate 32 9) signed (verification_key group key) ≡ ok tt)
      ↔ Equation group (replicate 32 9) signed (verification_key group key))
    × (¬ Equation group (replicate 32 9) signed (verification_key group key)
        → verify_hash_internal group (replicate 32 9) signed (verification_key group key)
          ≡ err verification_failed)
verify_hash_internal_iff_example =
    verify_hash_internal_iff group (replicate 32 9) signed (verification_key group key)

signed_run : (out : List ℕ) × (sign_cred_v2 group sample (encode_scalar 5) ≡ ok out)
unfolding sign_cred_v2 signing_key_from_bytes sign_hash_internal signature_to_bytes nonce_from
    hash_challenge get_spending_key_generator cred_v2_prehash_bytes
signed_run = (_, refl)

signed_rp_run :
    (out : List ℕ) × (sign_cred_v2_with_rp group sample (replicate 32 1) (encode_scalar 5) ≡ ok out)
unfolding sign_cred_v2_with_rp signing_key_from_bytes sign_hash_internal signature_to_bytes
    nonce_from hash_challenge get_spending_key_generator cred_v2_prehash_bytes
signed_rp_run = (_, refl)

sign_cred_v2-verify_cred_v2_example :
    (k : SigningKey group) × (sig : Signature group) × (signing_key_from_bytes group
        (encode_scalar 5)
      ≡ ok k)
    × (signed_run.0 ≡ signature_to_bytes group sig)
    × (verify_cred_v2 group sample signed_run.0 (public_bytes group k) ≡ answer group sig.s)
sign_cred_v2-verify_cred_v2_example =
    sign_cred_v2-verify_cred_v2 group sample (encode_scalar 5) signed_run.0 signed_run.1

sign_cred_v2_with_rp-verify_example :
    (k : SigningKey group) × (sig : Signature group) × (signing_key_from_bytes group
        (encode_scalar 5)
      ≡ ok k)
    × (signed_rp_run.0 ≡ signature_to_bytes group sig)
    × (verify_cred_v2_with_rp group sample (replicate 32 1) signed_rp_run.0 (public_bytes group k)
        ≡ answer group sig.s)
sign_cred_v2_with_rp-verify_example =
    sign_cred_v2_with_rp-verify group sample (replicate 32 1) (encode_scalar 5) signed_rp_run.0
      signed_rp_run.1
