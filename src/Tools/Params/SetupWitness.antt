-- ===== src/Tools/Params/SetupWitness.antt =====
-- The witness of the parameter generation is a credential that the circuit accepts, on every day.
use provii_crypto.Prelude.{
  ℕ, ◌/◌, ◌^◌, ◌<◌, ◌≡◌, refl, ◌∙◌, arith, true, false, List, [], ◌++◌, ok, some, All,
}
use mathlib.Core.Path.{subst}
use provii_crypto.Prelude.Int.{ℤ, pos, IsI32, ◌-ℤ◌, ◌≤ℤ◌}
use provii_crypto.Prelude.Bytes.{codes, IsByte}
use provii_crypto.Commons.{bias_for_circuit}
use provii_crypto.Commit
use provii_crypto.Commit.{
  pedersen_commit_dob_validated, validate_commitment_randomness, shift_bits, chunk_bytes,
  note_commitment,
}
use provii_crypto.Entropy.{has_enough_unique, count_unique}
use provii_crypto.Credential
use provii_crypto.Credential.Layout.{Fits}
use provii_crypto.PublicInputs.{Multipack, PublicValues, packed}
use provii_crypto.PublicInputs.Assembly
use provii_crypto.Signature.Primitives.{Jubjub}
use provii_crypto.Signature.{generate_keypair_with_rng, sign_cred_v2, signature_to_bytes}
use provii_crypto.Signature.Keys.{verification_key_accepted}
use provii_crypto.Circuit.Age.{AgeWitness}
use provii_crypto.Circuit.Backend.{Bellman, IsHonest}
use provii_crypto.Circuit.Bits.Complete.{Returns}
use provii_crypto.Circuit.Curve.{
  Curve, Sapling, Exposing, IsHonestSapling, IsHonestExposing, pedersen_hash,
}
use provii_crypto.Circuit.Synthesis.{synthesize}
use provii_crypto.Issuance.{Subgroup}
use provii_crypto.Issuance.Proved.{IsIssued, issued_credential_synthesizes}
use provii_crypto.Tools.SelfTest
use provii_crypto.Tools.Params.{
  setup_bits, epoch_days, public_from_witness, setup_msg, generate_valid_test_witness, setup_cutoff,
}

-- A time whose day fits an `i32`.
abbrev pub IsInRange : ℕ → Type 0
IsInRange now = now / 86_400 < 2 ^ 31

days_eq : (now : ℕ) → IsInRange now → epoch_days now ≡ pos (now / 86_400)
days_eq now h = ground arith

module _ (now : ℕ) (h : IsInRange now) where
  dob-IsI32 : IsI32 (epoch_days now -ℤ pos 9855)
  dob-IsI32 = rw (days_eq now h) (ground arith)

  cutoff-IsI32 : IsI32 (setup_cutoff now)
  cutoff-IsI32 = rw (days_eq now h) (ground arith)

  -- Twenty-seven years of 365 days back is before eighteen.
  old_enough : epoch_days now -ℤ pos 9855 ≤ℤ setup_cutoff now
  old_enough = rw (days_eq now h) (ground arith)

module _ (J : Jubjub) (C : Curve) (now : ℕ) (drawn : J.Scalar) where
  abbrev pub dob : ℤ
  dob = epoch_days now -ℤ pos 9855

  abbrev pub commitment : List ℕ
  commitment =
      pedersen_hash C note_commitment (shift_bits 32 (bias_for_circuit dob) ++ setup_bits 128 0)

  commitment_made :
      pedersen_commit_dob_validated (pedersen_hash C) dob (setup_bits 128 0) ≡ ok commitment
  unfolding pedersen_commit_dob_validated validate_commitment_randomness has_enough_unique
      count_unique chunk_bytes
  commitment_made = refl

  pub fits : Fits (setup_msg commitment)
  fits = omega arith

  abbrev pub nonce : J.Scalar
  nonce = SelfTest.nonce J drawn (setup_msg commitment) fits

  abbrev pub setup_witness : AgeWitness
  setup_witness = record {
    dob_days = dob;
    r_bits = setup_bits 128 0;
    issuer_vk_bytes = (generate_keypair_with_rng J drawn).1;
    sig_rj_bytes = signature_to_bytes J (SelfTest.made J drawn (setup_msg commitment) fits);
    v = 2;
    kid = codes "provii:2026-05";
    c_bytes = commitment;
    iat = 1735000000;
    exp = 1766536000;
    schema = codes "provii.age/0";
  }

  module _ (d : J.is_zero drawn ≡ false) (n : J.is_zero nonce ≡ false) where
    signs :
        sign_cred_v2 J (setup_msg commitment) (J.scalar_to_bytes drawn)
        ≡ ok setup_witness.sig_rj_bytes
    signs = SelfTest.signs J drawn (setup_msg commitment) fits d n

    generated : generate_valid_test_witness J C now drawn ≡ ok setup_witness
    unfolding generate_valid_test_witness generate_keypair_with_rng
    generated = rw commitment_made (rw signs refl)

    message-IsTyped : Credential.IsTyped (setup_msg commitment)
    message-IsTyped = (
      omega arith,
      omega arith,
      C.point_to_bytes-IsByte _,
      C.length-point_to_bytes _,
      omega arith,
      omega arith,
      omega arith,
    )

    issued :
        IsInRange now
        → (rp_hash : List ℕ)
        → IsIssued J C
            (public_from_witness C setup_witness (setup_cutoff now) rp_hash true)
            setup_witness
    unfolding public_from_witness generate_keypair_with_rng
    issued h rp_hash = record {
      signing_key = J.scalar_to_bytes drawn;
      key = record { scalar = drawn };
      message-IsTyped = message-IsTyped;
      dob_days-IsI32 = dob-IsI32 now h;
      key_is = (verification_key_accepted J (record { scalar = drawn })).0 ∙ rw d refl;
      committed = commitment_made;
      signed = signs;
      length-kid = refl;
      length-schema = refl;
      length-r_bits = refl;
      witness_vk_is = refl;
      public_vk_is = refl;
      nullifier_is = refl;
      qualifies = old_enough now h;
    }

module _ {J : Jubjub} {C : Curve} (U : Subgroup J C) (now : ℕ) (drawn : J.Scalar) where
  -- The public values of the tool's self-check.
  abbrev pub setup_values : List ℕ → PublicValues
  setup_values rp_hash =
      public_from_witness C (setup_witness J C now drawn) (setup_cutoff now) rp_hash true

  values-IsTyped :
      (rp_hash : List ℕ)
      → IsInRange now
      → Assembly.IsBytes32 rp_hash
      → Assembly.IsTyped (setup_values rp_hash)
  unfolding public_from_witness generate_keypair_with_rng Commit.pedersen_nullifier
  values-IsTyped rp_hash h t = (
    cutoff-IsI32 now h,
    t,
    (
      J.length-point_to_bytes _,
      subst (All IsByte) (U.embed_bytes _) (C.point_to_bytes-IsByte (U.embed _)),
    ),
    (C.length-point_to_bytes _, C.point_to_bytes-IsByte _),
  )

  -- The self-check of the parameter generation: on every day that fits an `i32`, but for a zero secret
  -- and a zero nonce, the tool generates its witness without a panic, and an honest prover synthesizes
  -- the circuit on it and on its public values without an error and with every constraint satisfied.
  pub setup_witness_synthesizes :
      {B : Bellman} {M : Multipack} (E : Exposing B M) (S : Sapling B C) (H : IsHonest B)
      (K : IsHonestSapling S) (X : IsHonestExposing E) (rp_hash : List ℕ) (s : B.System)
      → IsInRange now
      → Assembly.IsBytes32 rp_hash
      → J.is_zero drawn ≡ false
      → J.is_zero (nonce J C now drawn) ≡ false
      → E.public_inputs ≡ packed M (setup_values rp_hash)
      → E.exposed s ≡ []
      → (generate_valid_test_witness J C now drawn ≡ ok (setup_witness J C now drawn))
        × Returns B
            (synthesize E.pack_into_inputs S
              (setup_values rp_hash)
              (some (setup_witness J C now drawn))
              s)
            s
            tt
  setup_witness_synthesizes E S H K X rp_hash s h t d n inputs nothing = (
    generated J C now drawn d n,
    issued_credential_synthesizes U E S H K X (setup_values rp_hash) (setup_witness J C now drawn) s
        (values-IsTyped rp_hash h t) (issued J C now drawn d n h rp_hash) inputs nothing,
  )
