-- ===== src/Tools/IssuerGen/Package.antt =====
-- The package that a run makes, and the ways in which a run can fail.
use provii_crypto.Prelude.{
  cons_inj, ℕ, ◌≤◌, ◌≡◌, ◌≢◌, ◌⊎◌, inl, inr, refl, sym, ap, ◌∙◌, true, List, ◌∷◌, ◌++◌, arith,
  Bool-cases, Option, Result, ok, err, ◌>>=◌, length, length-append,
}
use Prim.Native.String.{String}
use provii_crypto.Prelude.Bytes.{codes}
use provii_crypto.Credential.Layout.{Fits}
use provii_crypto.Signature.Primitives.{Jubjub}
use provii_crypto.Signature.{
  RedJubjubError, generate_keypair_with_rng, invalid_signing_key_bytes, invalid_nonce,
  invalid_signature_bytes,
}
use provii_crypto.Tools.{Encoders, test_msg, sign_and_verify}
use provii_crypto.Tools.SelfTest
use provii_crypto.Signature.Keys.{verification_key-point}
use mathlib.Core.Option.{some-injective}
use mathlib.Core.Option
use provii_crypto.Tools.IssuerGen.Policies.{
  IsLogo, checked_none, checked_some, Within, Any, policies-Yields,
}
use provii_crypto.Tools.IssuerGen.Outcome.{
  Yields, Yields-bind, Yields-ask, no_organization_name, no_domain, no_logo_url,
}
use provii_crypto.Tools.IssuerGen.{
  Unicode, Answers, Now, SigningKeyData, IssuerPackage, PackageError, key_id, hex_byte, tested,
  signing_keys, make_package, policies, ask, checked_logo_url, default_logo,
}

length-key_id :
    (environment : String) (date : List ℕ) (suffix : ℕ)
    → length (codes environment) ≡ 2
    → length date ≡ 8
    → length (key_id environment date suffix) ≡ 14
length-key_id environment date suffix h d = omega (
  arith,
  length-append (codes environment) (b':' ∷ (date ++ (b':' ∷ hex_byte suffix))),
  length-append date (b':' ∷ hex_byte suffix),
)

module _ (J : Jubjub) (E : Encoders) where
  -- The texts of the two halves of the pair of a scalar.
  abbrev pub IsPair : J.Scalar → SigningKeyData → Type 0
  IsPair drawn k =
      (k.private_key ≡ E.base64url (J.scalar_to_bytes drawn))
      × (k.public_key ≡ E.base64url (J.point_to_bytes (J.scale J.generator drawn)))

  -- The errors of the test of a pair: a zero secret, nonce or scalar of its signature.
  abbrev pub IsZeroIn :
      (drawn : J.Scalar) (id : List ℕ) → Fits (test_msg id) → RedJubjubError → Type 0
  IsZeroIn drawn id fits e =
      ((e ≡ invalid_signing_key_bytes) × (J.is_zero drawn ≡ true))
      ⊎ (((e ≡ invalid_nonce) × (J.is_zero (SelfTest.nonce J drawn (test_msg id) fits) ≡ true))
          ⊎ ((e ≡ invalid_signature_bytes)
              × (J.is_zero (SelfTest.made J drawn (test_msg id) fits).s ≡ true)))

  abbrev TestOutcome : (RedJubjubError → Type 0) → Result RedJubjubError (Unit {0}) → Type 0
  TestOutcome Rare (ok _) = Unit {0}
  TestOutcome Rare (err e) = Rare e

  test_outcome :
      (drawn : J.Scalar) (id : List ℕ) (fits : Fits (test_msg id)) (Rare : RedJubjubError → Type 0)
      → ((e : RedJubjubError) → IsZeroIn drawn id fits e → Rare e)
      → TestOutcome Rare (sign_and_verify J (test_msg id) (generate_keypair_with_rng J drawn))
  test_outcome drawn id fits Rare rare =
      rw (SelfTest.sign_and_verify_lem J drawn (test_msg id) fits)
        (elim (Bool-cases (J.is_zero drawn)) [
          | inl d ↦ rw d (rare _ (inl (refl, d)))
          | inr d ↦ elim (Bool-cases (J.is_zero (SelfTest.nonce J drawn (test_msg id) fits))) [
            | inl n ↦ rw (d, n) (rare _ (inr (inl (refl, n))))
            | inr n ↦ elim (Bool-cases (J.is_zero (SelfTest.made J drawn (test_msg id) fits).s)) [
              | inl s ↦ rw (d, n, s) (rare _ (inr (inr (refl, s))))
              | inr s ↦ rw (d, n, s) tt
            ]
          ]
        ])

  tested-Yields :
      (answers : Option Answers) (Q : SigningKeyData → Type 0) (Rare : RedJubjubError → Type 0)
      (r : Result RedJubjubError (Unit {0})) (k : SigningKeyData)
      → Q k
      → TestOutcome Rare r
      → Yields Rare answers Q (tested J E r >>= λ _. ok k)
  tested-Yields answers Q Rare (ok _) k q h = q
  tested-Yields answers Q Rare (err x) k q h = h

  module _ (now : Now) (eight : length now.date ≡ 8) (random_suffix : ℕ) where
    abbrev pub id_of : String → List ℕ
    id_of environment = key_id environment now.date random_suffix

    pub id_of-Fits :
        (environment : String)
        → length (codes environment) ≡ 2
        → Fits (test_msg (id_of environment))
    id_of-Fits environment h =
        omega (arith, length-key_id environment now.date random_suffix h eight)

    -- The keys of an environment: its id and the pair of its scalar.
    abbrev pub AreKeys : String → J.Scalar → SigningKeyData → Type 0
    AreKeys environment drawn k = (k.key_id ≡ id_of environment) × IsPair drawn k

    signing_keys-Yields :
        (answers : Option Answers) (environment : String) (drawn : J.Scalar)
        (two : length (codes environment) ≡ 2) (Rare : RedJubjubError → Type 0)
        → ((e : RedJubjubError)
            → IsZeroIn drawn (id_of environment) (id_of-Fits environment two) e
            → Rare e)
        → Yields Rare answers
            (AreKeys environment drawn)
            (signing_keys J E environment now random_suffix drawn)
    unfolding signing_keys generate_keypair_with_rng
    signing_keys-Yields answers environment drawn two Rare rare =
        let public =
          ap (λ q. E.base64url (J.point_to_bytes q))
            (verification_key-point J (record { scalar = drawn })) in
        rw (length-key_id environment now.date random_suffix two eight) (
          tested-Yields answers (AreKeys environment drawn) Rare _ _ (refl, (refl, public))
            (test_outcome drawn (id_of environment) (id_of-Fits environment two) Rare rare))

    ids_differ : id_of "pr" ≢ id_of "sb"
    ids_differ e = omega (arith, (cons_inj e).0)

    module _ (production sandbox : J.Scalar) where
      -- What a package guarantees.
      pub record IsPackage (p : IssuerPackage) : Type 0 where
        pub production_keys : AreKeys "pr" production p.signing_keys_production
        pub sandbox_keys : AreKeys "sb" sandbox p.signing_keys_sandbox
        pub production_length : length p.signing_keys_production.key_id ≡ 14
        pub sandbox_length : length p.signing_keys_sandbox.key_id ≡ 14
        pub keys_differ : p.signing_keys_production.key_id ≢ p.signing_keys_sandbox.key_id
        pub rotation_in : p.key_rotation_days ≤ 365
        pub logo_in : IsLogo p.logo_url

      -- The errors of either test.
      abbrev pub IsRare : RedJubjubError → Type 0
      IsRare e =
          IsZeroIn production (id_of "pr") (id_of-Fits "pr" refl) e
          ⊎ IsZeroIn sandbox (id_of "sb") (id_of-Fits "sb" refl) e

      -- How a run may end.
      abbrev pub Ends : Option Answers → Result PackageError IssuerPackage → Type 0
      Ends answers = Yields IsRare answers IsPackage

      packaged :
          {p : IssuerPackage}
          → IsLogo p.logo_url
          → AreKeys "pr" production p.signing_keys_production
          → AreKeys "sb" sandbox p.signing_keys_sandbox
          → p.key_rotation_days ≤ 365
          → IsPackage p
      packaged {p} logo (pr, pair) (sb, pair') days = record {
        production_keys = (pr, pair);
        sandbox_keys = (sb, pair');
        production_length = ap length pr ∙ length-key_id "pr" now.date random_suffix refl eight;
        sandbox_length = ap length sb ∙ length-key_id "sb" now.date random_suffix refl eight;
        keys_differ = λ e. ids_differ (sym pr ∙ e ∙ sb);
        rotation_in = days;
        logo_in = logo;
      }

      -- On a date of eight characters a run never fails the assertion on a key id. It ends in a
      -- package whose keys for production and for the sandbox are the halves of the two drawn pairs
      -- under their `pr` and `sb` ids, which differ and have the 14 bytes of the circuit, whose keys
      -- rotate within 365 days and whose logo is empty or a picture over https; or in the error for a
      -- zero secret, nonce or scalar of a sample signature; or, when it asks, because a prompt failed,
      -- the last one before it had an interval that fits.
      pub make_package-Ends :
          (U : Unicode) (answers : Option Answers)
          → Ends answers (make_package J E U answers now random_suffix production sandbox)
      unfolding make_package
      make_package-Ends U answers =
          Yields-bind IsRare answers Any IsPackage
            (ask answers (codes "Example Organization") (λ a. a.organization_name)) _
            (Yields-ask IsRare Any answers _ _ (λ _. no_organization_name) tt λ _ _ _. tt)
            λ name _.
              Yields-bind IsRare answers Any IsPackage
                (ask answers (codes "issuer.example.com") (λ a. a.domain)) _
                (Yields-ask IsRare Any answers _ _ (λ _. no_domain) tt λ _ _ _. tt)
                λ domain _.
                  Yields-bind IsRare answers IsLogo IsPackage
                    (ask answers default_logo (λ a. Option.map checked_logo_url a.logo_url)) _
                    (Yields-ask IsRare IsLogo answers _ _
                      (λ a e. no_logo_url (checked_none a.logo_url e)) (inr (refl, refl))
                      λ a. checked_some a.logo_url)
                    λ logo hl.
                      Yields-bind IsRare answers (AreKeys "pr" production) IsPackage
                        (signing_keys J E "pr" now random_suffix production) _
                        (signing_keys-Yields answers "pr" production refl IsRare λ _. inl)
                        λ k hk.
                          Yields-bind IsRare answers (AreKeys "sb" sandbox) IsPackage
                            (signing_keys J E "sb" now random_suffix sandbox) _
                            (signing_keys-Yields answers "sb" sandbox refl IsRare λ _. inr)
                            λ l hs.
                              Yields-bind IsRare answers Within IsPackage (policies answers) _
                                (policies-Yields IsRare answers) λ q hq. packaged hl hk hs hq
