-- ===== src/Commit/Binding.antt =====
-- The commitment to a date of birth: when it is made, and what is hashed.
use provii_crypto.Prelude.{ℕ, zero, suc, ◌/◌, ◌^◌, ◌≤◌, ◌≡◌, ◌↔◌, refl, sym, ap, ap₂, ◌∙◌, arith}
use provii_crypto.Prelude.{
  Bool, not, List, ◌∷◌, ◌++◌, ok, err, length, append_inj, Result, ◌>>◌, guard, ltb,
}
use provii_crypto.Prelude.{bit_and, ◌==◌}
use provii_crypto.Prelude.{on_bind, on_guard, ok-injective}
use provii_crypto.Prelude.Bits.{bit_and-one}
use provii_crypto.Prelude.Bytes.{bits_from, bits_from-suc, length-bits_from, value-bits_from, value}
use provii_crypto.Prelude.Int.{ℤ, IsI32}
use provii_crypto.Commons.{Error, invalid_input, bias_for_circuit, unbias_from_circuit}
use provii_crypto.Commons.Bias.{bias-lt, bias-unbias}
use provii_crypto.Entropy.Count.{unique_bytes}
use provii_crypto.Commit.{
  Personalization, note_commitment, shift_bits, pedersen_commit_dob_validated,
  validate_commitment_randomness, randomness_bytes,
}
use provii_crypto.Commit.Randomness.{validate_iff}

-- The shifting loop yields the bits that the circuit allocates.
pub shift_bits-bits_from : (n v : ℕ) → shift_bits n v ≡ bits_from n 0 v
unfolding shift_bits bits_from
shift_bits-bits_from zero v = refl
shift_bits-bits_from (suc n) v =
    ap₂ ◌∷◌ (low v) (shift_bits-bits_from n (v / 2) ∙ sym (bits_from-suc n 0 v))
  where
    low : (v : ℕ) → not (bit_and v 1 == 0) ≡ (bit_and (v / 2 ^ 0) 1 == 1)
    low v = ground (arith, bit_and-one v, bit_and-one (v / 1))

-- What is hashed for a commitment.
abbrev pub opening : ℤ → List Bool → List Bool
opening dob_days r_bits = bits_from 32 0 (bias_for_circuit dob_days) ++ r_bits

-- The randomness that is allowed: 128 to 1096 bits with at least eight byte values.
abbrev pub IsStrong : List Bool → Type 0
IsStrong r_bits =
    (128 ≤ length r_bits) × (length r_bits ≤ 1096) × (8 ≤ unique_bytes (randomness_bytes r_bits))

module _ (pedersen_hash : Personalization → List Bool → List ℕ) where
  abbrev commit : ℤ → List Bool → Result Error (List ℕ)
  commit = pedersen_commit_dob_validated pedersen_hash

  -- A commitment is made exactly for randomness of 128 to 1096 bits with at least eight byte
  -- values, and anything else is `InvalidInput`. It is the Pedersen hash of the 32 bits of the
  -- biased date, lowest first, followed by the randomness.
  pub pedersen_commit_dob_validated_iff :
      (dob_days : ℤ) (r_bits : List Bool)
      → (IsStrong r_bits
          → commit dob_days r_bits ≡ ok (pedersen_hash note_commitment (opening dob_days r_bits)))
        × (¬ IsStrong r_bits → commit dob_days r_bits ≡ err invalid_input)
  unfolding pedersen_commit_dob_validated
  pedersen_commit_dob_validated_iff dob_days r_bits =
      let (accepts, rejects) = validate_iff r_bits in
      decide (validate_commitment_randomness r_bits) (length r_bits)
        (unique_bytes (randomness_bytes r_bits)) _ _ accepts rejects
        (ap (λ t. pedersen_hash note_commitment (t ++ r_bits))
          (shift_bits-bits_from 32 (bias_for_circuit dob_days)))
    where
      decide :
          (v : Result Error (Unit {0})) (l u : ℕ) (x y : List ℕ)
          → (v ≡ ok tt) ↔ ((32 ≤ l) × (8 ≤ u))
          → (¬ ((32 ≤ l) × (8 ≤ u)) → v ≡ err invalid_input)
          → x ≡ y
          → let r : Result Error (List ℕ) =
              v
              >> (guard (not (ltb l 128)) invalid_input
                  >> (guard (not (ltb 1096 l)) invalid_input >> ok x)) in
            ((128 ≤ l) × (l ≤ 1096) × (8 ≤ u) → r ≡ ok y)
            × (¬ ((128 ≤ l) × (l ≤ 1096) × (8 ≤ u)) → r ≡ err invalid_input)
      decide (ok tt) l u x y h k e = ground (arith, e)
      decide (err f) l u x y h k e = ground (arith, e)

  -- A commitment that was made opens to its date and randomness.
  pub commit-opening :
      (dob_days : ℤ) (r_bits : List Bool) {c : List ℕ}
      → commit dob_days r_bits ≡ ok c
      → c ≡ pedersen_hash note_commitment (opening dob_days r_bits)
  unfolding pedersen_commit_dob_validated
  commit-opening dob_days r_bits h = on_bind (validate_commitment_randomness r_bits) _ h λ _ _ h1.
      on_guard (not (ltb (length r_bits) 128)) invalid_input _ h1 λ _ h2.
        on_guard (not (ltb 1096 (length r_bits))) invalid_input _ h2 λ _ h3.
          sym (ok-injective h3)
          ∙ ap (λ t. pedersen_hash note_commitment (t ++ r_bits))
              (shift_bits-bits_from 32 (bias_for_circuit dob_days))

-- What is hashed determines the date and the randomness.
pub shift_bits_inj :
    (a b : ℤ) (r s : List Bool)
    → IsI32 a
    → IsI32 b
    → shift_bits 32 (bias_for_circuit a) ++ r ≡ shift_bits 32 (bias_for_circuit b) ++ s
    → (a ≡ b) × (r ≡ s)
shift_bits_inj a b r s ha hb e =
    let eq : opening a r ≡ opening b s =
      ap (λ t. t ++ r) (sym (shift_bits-bits_from 32 (bias_for_circuit a)))
      ∙ e
      ∙ ap (λ t. t ++ s) (shift_bits-bits_from 32 (bias_for_circuit b)) in
    let (p, q) =
      append_inj (bits_from 32 0 (bias_for_circuit a)) (bits_from 32 0 (bias_for_circuit b)) r s
        (length-bits_from 32 0 _ ∙ sym (length-bits_from 32 0 _)) eq in
    let same : bias_for_circuit a ≡ bias_for_circuit b =
      sym (value-bits_from 32 _ (bias-lt a ha))
      ∙ ap value p
      ∙ value-bits_from 32 _ (bias-lt b hb) in
    (sym (bias-unbias.0 a ha) ∙ ap unbias_from_circuit same ∙ bias-unbias.0 b hb, q)
