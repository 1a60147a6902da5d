-- ===== src/Signature.antt =====
-- crypto-sig-redjubjub/src/lib.rs: Schnorr signatures over the prime-order subgroup of Jubjub, on
-- credential messages. Wiping secrets from memory has no effect on the results and is left out.
pub mod Primitives
pub mod Keys
pub mod Encoding
pub mod Schnorr
pub mod Example
mod Tests
use provii_crypto.Prelude.{
  ℕ, Bool, true, false, List, [], ◌∷◌, ◌++◌, Option, some, none, Result, ok, err,
}
use provii_crypto.Prelude.{
  ◌>>=◌, ◌>>◌, guard, ok_or, map_err, not, if◌then◌else◌, take, drop, replicate,
}
use provii_crypto.Prelude.Bytes.{bytes_eq}
use provii_crypto.Commons.{redjubjub_personalization, redjubjub_nonce_tag}
use provii_crypto.Credential.{CredMsgV2, prehash}
use provii_crypto.Signature.Primitives.{Jubjub, spending_key_gen_bytes}

pub data RedJubjubError : Type 0 where
  invalid_signature_bytes invalid_verification_key_bytes invalid_signing_key_bytes : RedJubjubError
  verification_failed field_too_long invalid_nonce : RedJubjubError

module _ (J : Jubjub) where
  open J use {Scalar, Point}

  -- `expect` on the decoded constant; the case that panics does not arise, by `generator_decodes`.
  unfoldable pub get_spending_key_generator : Point
  get_spending_key_generator = elim (J.point_from_bytes spending_key_gen_bytes) [
    | some p ↦ p
    | none ↦ J.generator
  ]

  pub record SigningKey : Type 0 where
    pub scalar : Scalar

  pub record VerificationKey : Type 0 where
    pub point : Point

  pub record Signature : Type 0 where
    pub r : Point
    pub s : Scalar

  unfoldable pub signing_key_from_bytes : List ℕ → Result RedJubjubError SigningKey
  signing_key_from_bytes bytes = do
    scalar ← ok_or (J.scalar_from_bytes bytes) invalid_signing_key_bytes
    guard (not (J.is_zero scalar)) invalid_signing_key_bytes
    ok (record { scalar = scalar })

  unfoldable pub verification_key : SigningKey → VerificationKey
  unfolding get_spending_key_generator
  verification_key k = record { point = J.scale get_spending_key_generator k.scalar }

  pub verification_key_from_bytes : List ℕ → Result RedJubjubError VerificationKey
  verification_key_from_bytes bytes = do
    point ← ok_or (J.point_from_bytes bytes) invalid_verification_key_bytes
    guard (not (J.is_identity point)) invalid_verification_key_bytes
    ok (record { point = point })

  -- The argument has 64 bytes.
  pub signature_from_bytes : List ℕ → Result RedJubjubError Signature
  signature_from_bytes bytes = do
    let r_bytes = take 32 bytes
    let s_bytes = take 32 (drop 32 bytes)
    r ← ok_or (J.point_from_bytes r_bytes) invalid_signature_bytes
    guard (not (J.is_identity r)) invalid_signature_bytes
    s ← ok_or (J.scalar_from_bytes s_bytes) invalid_signature_bytes
    guard (not (J.is_zero s)) invalid_signature_bytes
    ok (record { r = r; s = s })

  unfoldable pub signature_to_bytes : Signature → List ℕ
  signature_to_bytes sig = J.point_to_bytes sig.r ++ J.scalar_to_bytes sig.s

  -- A digest of 32 bytes in the lower half of 64, reduced.
  abbrev pub wide_reduce : List ℕ → Scalar
  wide_reduce digest = J.scalar_from_bytes_wide (digest ++ replicate 32 0)

  unfoldable pub nonce_from : List ℕ → List ℕ → Scalar
  nonce_from sk_bytes msg_hash =
      wide_reduce (J.blake2s256 (redjubjub_nonce_tag ++ (sk_bytes ++ msg_hash)))

  unfoldable pub hash_challenge : List ℕ → List ℕ → List ℕ → Scalar
  hash_challenge r_bytes vk_bytes msg_hash =
      wide_reduce (J.blake2s_personal redjubjub_personalization (r_bytes ++ (vk_bytes ++ msg_hash)))

  unfoldable pub sign_hash_internal : List ℕ → SigningKey → Result RedJubjubError Signature
  sign_hash_internal hash key =
      let g = get_spending_key_generator in
      let nonce = nonce_from (J.scalar_to_bytes key.scalar) hash in
      let r_point = J.scale g nonce in
      let vk_point = J.scale g key.scalar in
      let c = hash_challenge (J.point_to_bytes r_point) (J.point_to_bytes vk_point) hash in
      if J.is_zero nonce
      then err invalid_nonce
      else ok (record { r = r_point; s = J.scalar_add nonce (J.scalar_mul c key.scalar) })

  pub verify_hash_internal : List ℕ → Signature → VerificationKey → Result RedJubjubError (Unit {0})
  verify_hash_internal hash sig vk =
      let g = get_spending_key_generator in
      let c = hash_challenge (J.point_to_bytes sig.r) (J.point_to_bytes vk.point) hash in
      let lhs = J.scale g sig.s in
      let rhs = J.point_add sig.r (J.scale vk.point c) in
      if bytes_eq (J.point_to_bytes lhs) (J.point_to_bytes rhs)
      then ok tt
      else err verification_failed

  -- The hash that is signed: of the prehash alone, and of that hash and the relying party.
  abbrev pub cred_hash : List ℕ → List ℕ
  cred_hash bytes = J.blake2s256 bytes

  abbrev pub rp_hash : List ℕ → List ℕ → List ℕ
  rp_hash bytes rp = J.blake2s256 (J.blake2s256 bytes ++ rp)

  unfoldable pub sign_cred_v2 : CredMsgV2 → List ℕ → Result RedJubjubError (List ℕ)
  sign_cred_v2 m signing_key = do
    key ← signing_key_from_bytes signing_key
    bytes ← map_err (prehash m) field_too_long
    sig ← sign_hash_internal (cred_hash bytes) key
    ok (signature_to_bytes sig)

  unfoldable pub verify_cred_v2 : CredMsgV2 → List ℕ → List ℕ → Result RedJubjubError (Unit {0})
  verify_cred_v2 m signature verification_key = do
    vk ← verification_key_from_bytes verification_key
    sig ← signature_from_bytes signature
    bytes ← map_err (prehash m) field_too_long
    verify_hash_internal (cred_hash bytes) sig vk

  pub sign_cred_v2_with_rp : CredMsgV2 → List ℕ → List ℕ → Result RedJubjubError (List ℕ)
  sign_cred_v2_with_rp m rp signing_key = do
    key ← signing_key_from_bytes signing_key
    bytes ← map_err (prehash m) field_too_long
    sig ← sign_hash_internal (rp_hash bytes rp) key
    ok (signature_to_bytes sig)

  pub verify_cred_v2_with_rp :
      CredMsgV2 → List ℕ → List ℕ → List ℕ → Result RedJubjubError (Unit {0})
  verify_cred_v2_with_rp m rp signature verification_key = do
    vk ← verification_key_from_bytes verification_key
    sig ← signature_from_bytes signature
    bytes ← map_err (prehash m) field_too_long
    verify_hash_internal (rp_hash bytes rp) sig vk

  -- `random_with_rng` draws the scalar; the draw is an argument.
  unfoldable pub generate_keypair_with_rng : Scalar → List ℕ × List ℕ
  generate_keypair_with_rng drawn =
      let key : SigningKey = record { scalar = drawn } in
      (J.scalar_to_bytes key.scalar, J.point_to_bytes (verification_key key).point)
