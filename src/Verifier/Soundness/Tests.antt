-- ===== src/Verifier/Soundness/Tests.antt =====
-- A proof system of single bytes that accepts the public inputs of one synthesis, and the soundness of
-- the verifier at it.
use provii_crypto.Prelude.{
  ℕ, ◌≡◌, refl, ap₂, arith, Bool, true, false, ◌&&◌, List, [], ◌∷◌, Option, some, none, ok, ◌==◌,
}
use provii_crypto.Prelude.Bytes.{to_le_bytes, bits_from}
use provii_crypto.Commons.{bias_for_circuit}
use provii_crypto.PublicInputs.{packed, bits_le_from_bytes}
use provii_crypto.PublicInputs.Tests.{packing}
use provii_crypto.Verifier.{Groth16, Keys, get, verify_age_snark}
use provii_crypto.Verifier.Verification.{verify_age_snark_iff}
use provii_crypto.Verifier.Soundness.{IsSoundKey, verify_age_snark_sound}
use provii_crypto.Circuit.Synthesis.Statement.{Statement}
use provii_crypto.Circuit.Synthesis.TwoPoints.{two_points}
use provii_crypto.Circuit.Synthesis.Example.{
  bits_eq, bits_eq_sound, exposing_system, exposing, gadgets,
}
use provii_crypto.Circuit.Synthesis.Tests.{
  public, witness, inputs, start, finish, run, public-IsTyped,
}

abbrev only_byte : List ℕ → Option ℕ
only_byte (b ∷ []) = some b
only_byte bytes = none

abbrev same_scalars : List (List Bool) → List (List Bool) → Bool
same_scalars [] [] = true
same_scalars [] (y ∷ ys) = false
same_scalars (x ∷ xs) [] = false
same_scalars (x ∷ xs) (y ∷ ys) = bits_eq x y && same_scalars xs ys

same_scalars_sound : (xs ys : List (List Bool)) → same_scalars xs ys ≡ true → xs ≡ ys
same_scalars_sound [] [] h = refl
same_scalars_sound [] (y ∷ ys) h = cc
same_scalars_sound (x ∷ xs) [] h = cc
same_scalars_sound (x ∷ xs) (y ∷ ys) h =
    let a : bits_eq x y ≡ true = ground arith in
    let b : same_scalars xs ys ≡ true = ground arith in
    ap₂ ◌∷◌ (bits_eq_sound x y a) (same_scalars_sound xs ys b)

abbrev strict : Groth16 packing
strict = record {
  VerifyingKey = ℕ;
  PreparedVerifyingKey = ℕ;
  Proof = ℕ;
  read_vk = only_byte;
  prepare_verifying_key = λ vk. vk;
  read_proof = only_byte;
  verify_proof = λ pvk proof xs. same_scalars inputs xs && (pvk == proof);
}

sound_key : IsSoundKey packing strict two_points 12
unfolding bits_le_from_bytes to_le_bytes bits_from bias_for_circuit
sound_key proof xs h = record {
  bellman = exposing_system inputs;
  exposing = exposing inputs;
  gadgets = gadgets inputs;
  public = public;
  witness = some witness;
  start = start;
  finish = finish;
  public-IsTyped = public-IsTyped;
  public_inputs_are = same_scalars_sound inputs xs (left (same_scalars inputs xs) (12 == proof) h);
  exposed_nothing = refl;
  synthesized = run;
  satisfied = refl;
}
  where
    left : (a b : Bool) → (a && b) ≡ true → a ≡ true
    left a b h = ground arith

abbrev one_key : Keys packing strict
one_key = (4, 12) ∷ []

accepts : same_scalars inputs (packed packing public) ≡ true
unfolding bits_le_from_bytes to_le_bytes bits_from bias_for_circuit
accepts = refl

verified :
    verify_age_snark packing strict (12 ∷ []) public 4 (some one_key)
    ≡ ok (record { inputs = public; vk_id = 4 })
unfolding get
verified =
    (verify_age_snark_iff packing strict (12 ∷ []) public 4 (some one_key)
        (record { inputs = public; vk_id = 4 }) public-IsTyped).1
      ((12, 12, refl, refl, rw accepts refl), refl)

verify_age_snark_sound_example : Statement two_points public
unfolding get
verify_age_snark_sound_example =
    verify_age_snark_sound packing strict two_points (12 ∷ []) public 4 (some one_key)
      (record { inputs = public; vk_id = 4 }) 12 public-IsTyped refl sound_key verified
