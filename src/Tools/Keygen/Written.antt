-- ===== src/Tools/Keygen/Written.antt =====
-- A run of the key generator: what the secret key's file holds, and how the run ends.
use provii_crypto.Prelude.{
  ℕ, ◌≡◌, ap, refl, sym, ◌∙◌, ◌≤◌, Bool-cases, inl, inr, Bool, true, false, List, [], ◌∷◌, ◌++◌,
  Option, some, Result, ok, err, if◌then◌else◌, length, length-append, arith,
}
use mathlib.Core.Path.{subst}
use provii_crypto.Prelude.Bytes.{codes}
use provii_crypto.Signature.Primitives.{Jubjub}
use provii_crypto.Signature.{
  generate_keypair_with_rng, invalid_signing_key_bytes, invalid_nonce, invalid_signature_bytes,
}
use provii_crypto.Tools.{Encoders, FileSystem, test_msg}
use provii_crypto.Credential.Layout.{Fits}
use provii_crypto.Tools.SelfTest
use provii_crypto.Signature.Keys.{verification_key-point}
use provii_crypto.Tools.Keygen.{
  RunError, Made, signature_creation_failed, signature_verification_failed, kid_of, check_keys, run,
  secret_json, kv_value, then_do, jwks_entry, restrict_mode,
}

module _ (J : Jubjub) (E : Encoders) (F : FileSystem) (drawn : J.Scalar) (month month_name : List ℕ)
    (short : length month ≤ 248) where
  pub message-Fits : Fits (test_msg (kid_of J E F month))
  message-Fits = omega (arith, length-append (codes "provii:") month)

  abbrev pub keys : List ℕ × List ℕ
  keys = generate_keypair_with_rng J drawn

  -- The nonce and the scalar of the signature on the sample message.
  abbrev pub nonce : J.Scalar
  nonce = SelfTest.nonce J drawn (test_msg (kid_of J E F month)) message-Fits

  abbrev pub signature_scalar : J.Scalar
  signature_scalar = (SelfTest.made J drawn (test_msg (kid_of J E F month)) message-Fits).s

  -- The two halves of the pair of the drawn scalar.
  abbrev pub secret_half : List ℕ
  secret_half = J.scalar_to_bytes drawn

  abbrev pub public_half : List ℕ
  public_half = J.point_to_bytes (J.scale J.generator drawn)

  -- The secret key's file: both halves, in hex and in base64url.
  abbrev pub secret_text : List ℕ
  secret_text = E.to_string (
      E.object (
        (codes "sk_hex", E.text (E.hex secret_half))
        ∷ (codes "sk_b64u", E.text (E.base64url secret_half))
        ∷ (codes "vk_hex", E.text (E.hex public_half))
        ∷ (codes "vk_b64u", E.text (E.base64url public_half))
        ∷ []))

  -- The key store's entry: both halves in base64url.
  abbrev pub store_text : List ℕ
  store_text = E.to_string (
      E.object (
        (codes "sk", E.text (E.base64url secret_half))
        ∷ (codes "vk", E.text (E.base64url public_half))
        ∷ []))

  -- The entry of the public key set: the public half only.
  abbrev pub public_entry : E.Json
  public_entry = E.object (
      (codes "kty", E.text (codes "OKP"))
      ∷ (codes "crv", E.text (codes "JUBJUB"))
      ∷ (codes "kid", E.text (codes "provii:" ++ month))
      ∷ (codes "use", E.text (codes "sig"))
      ∷ (codes "alg", E.text (codes "RedJubjub"))
      ∷ (codes "x", E.text (E.base64url public_half))
      ∷ (codes "name", E.text (codes "Provii Issuer (" ++ (month_name ++ codes ")")))
      ∷ (codes "revoked", E.boolean false)
      ∷ [])

  -- How the tests of the keys end.
  abbrev pub outcome : Result (RunError J E F) (Made J E F)
  outcome =
      if J.is_zero drawn
      then err (signature_creation_failed invalid_signing_key_bytes)
      else if J.is_zero nonce
      then err (signature_creation_failed invalid_nonce)
      else if J.is_zero signature_scalar
      then err (signature_verification_failed invalid_signature_bytes)
      else ok (record {
        kv_key = codes "rj:keypair:provii:" ++ month;
        kv_entry = store_text;
        jwks = public_entry;
      })

  made_of_pair :
      ◌≡◌ {A = Made J E F}
        (record {
          kv_key = codes "rj:keypair:" ++ kid_of J E F month;
          kv_entry = kv_value J E F keys.0 keys.1;
          jwks = jwks_entry J E F month month_name keys.1;
        })
        (record {
          kv_key = codes "rj:keypair:provii:" ++ month;
          kv_entry = store_text;
          jwks = public_entry;
        })
  unfolding kv_value jwks_entry generate_keypair_with_rng
  made_of_pair = rw (verification_key-point J (record { scalar = drawn })) refl

  secret_json-pair : secret_json J E F keys.0 keys.1 ≡ secret_text
  unfolding secret_json generate_keypair_with_rng
  secret_json-pair = rw (verification_key-point J (record { scalar = drawn })) refl

  check_keys_lem : check_keys J E F month month_name keys ≡ outcome
  unfolding check_keys generate_keypair_with_rng
  check_keys_lem = elim (Bool-cases (J.is_zero drawn)) [
    | inl d ↦
        rw (SelfTest.no_key J drawn (test_msg (kid_of J E F month)) message-Fits d) (rw d refl)
    | inr d ↦ elim (Bool-cases (J.is_zero nonce)) [
      | inl n ↦
          rw (SelfTest.no_nonce J drawn (test_msg (kid_of J E F month)) message-Fits d n)
            (rw (d, n) refl)
      | inr n ↦ elim (Bool-cases (J.is_zero signature_scalar)) [
        | inl s ↦ rw (SelfTest.signs J drawn (test_msg (kid_of J E F month)) message-Fits d n) (
            rw (SelfTest.verifies J drawn (test_msg (kid_of J E F month)) message-Fits d n)
              (rw (d, n, s) refl))
        | inr s ↦ rw (SelfTest.signs J drawn (test_msg (kid_of J E F month)) message-Fits d n) (
            rw (SelfTest.verifies J drawn (test_msg (kid_of J E F month)) message-Fits d n)
              (rw (d, n, s) (rw J.point_decodes (ap ok made_of_pair))))
      ]
    ]
  ]

  then_do-ok :
      (did : F.Files × Result F.IoError (Unit {0}))
      (next : F.Files → F.Files × Result (RunError J E F) (Made J E F))
      → did.1 ≡ ok tt
      → then_do J E F did next ≡ next did.0
  then_do-ok (s, ok _) next e = refl
  then_do-ok (s, err x) next e = cc

  restricted :
      (files : F.Files) (path : List ℕ)
      → (restrict_mode J E F files path).1 ≡ ok tt
      → let closed = (restrict_mode J E F files path).0 in
        (F.read closed path ≡ F.read files path)
        × (F.mode_of closed path ≡ (if F.is_unix then some 384 else F.mode_of files path))
  restricted files path = cases F.is_unix
    where
      cases :
          (unix : Bool)
          → let did = if unix then F.set_permissions files path 384 else (files, ok tt) in
            did.1 ≡ ok tt
            → (F.read did.0 path ≡ F.read files path)
              × (F.mode_of did.0 path ≡ (if unix then some 384 else F.mode_of files path))
      cases true p = F.set_permissions_reads files path 384 p
      cases false p = (refl, refl)

  -- The owner may read and write; off Unix, what the write left.
  abbrev pub mode_left : F.Files → List ℕ → Option ℕ
  mode_left files output_file =
      if F.is_unix
      then some 384
      else F.mode_of (F.write files output_file secret_text).0 output_file

  -- When the file can be written and its mode restricted, the secret key's file holds both halves of
  -- the pair of the drawn scalar, the secret ones as `sk_hex` and `sk_b64u` and the public ones as
  -- `vk_hex` and `vk_b64u`, and on Unix it is readable by its owner only, however the run ends. The
  -- run succeeds, but for a zero secret, a zero nonce and a zero scalar of the sample signature; it
  -- then gives the key store's entry with both halves and the public entry with the public half. The
  -- month's text has at most 248 bytes.
  pub run_lem :
      (files : F.Files) (output_file : List ℕ)
      → (F.write files output_file secret_text).1 ≡ ok tt
      → (restrict_mode J E F (F.write files output_file secret_text).0 output_file).1 ≡ ok tt
      → let ran = run J E F drawn month month_name files output_file in
        (F.read ran.0 output_file ≡ some secret_text)
        × (F.mode_of ran.0 output_file ≡ mode_left files output_file)
        × (ran.1 ≡ outcome)
  unfolding run
  run_lem files output_file w p =
      let written = F.write files output_file secret_text in
      let (kept, mode) = restricted written.0 output_file p in
      rw secret_json-pair (
        subst
          (λ ran.
            (F.read ran.0 output_file ≡ some secret_text)
            × (F.mode_of ran.0 output_file ≡ mode_left files output_file)
            × (ran.1 ≡ outcome))
          (sym
            (then_do-ok written _ w ∙ then_do-ok (restrict_mode J E F written.0 output_file) _ p))
          (kept ∙ F.write_reads files output_file secret_text w, mode, check_keys_lem))
