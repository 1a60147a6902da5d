-- ===== src/Prover/Validation.antt =====
-- crypto-prover/src/lib.rs: `validate_inputs_detailed` and `validate_inputs`. The messages are a data
-- type with the values that they are formatted from.
use provii_crypto.Prelude.{
  ℕ, ◌+◌, ◌<◌, ◌≡◌, ◌↔◌, arith, Bool, true, false, not, ◌&&◌, List, [], ◌∷◌, ◌++◌, Option, none,
  Result, ok, err, length, replicate, ◌==◌, leb, ltb, if◌then◌else◌,
}
use provii_crypto.Prelude.Int.{ℤ, pos, pos_part, neg_part, ◌≤ℤ◌}
use provii_crypto.Prelude.Bytes.{bytes_eq, bytes_eq_sound, bytes_eq_refl}
use provii_crypto.Commons.{Error, invalid_input}
use provii_crypto.Circuit.Age.{AgeWitness}
use provii_crypto.Circuit.Synthesis.{AgePublic}

pub data Detail : Type 0 where
  cutoff_is_zero dob_is_zero dob_exceeds_bound invalid_timestamps commitment_is_zero : Detail
  age_check_may_fail all_validations_passed : Detail
  cutoff_too_large : ℤ → Detail
  r_bits_length signature_length : ℕ → Detail

pub record ValidationResults : Type 0 where
  pub input_validation : Bool
  pub witness_validation : Bool
  pub constraint_satisfaction : Option Bool
  pub details : List Detail

-- `==` and `>` on `i32`.
abbrev pub eq_zero : ℤ → Bool
eq_zero a = (pos_part a == 0) && (neg_part a == 0)

abbrev pub exceeds : ℤ → ℤ → Bool
exceeds a b = ltb (pos_part b + neg_part a) (pos_part a + neg_part b)

abbrev pub refuse_input : Bool → Detail → ValidationResults → ValidationResults
refuse_input true d r = record r { input_validation = false; details = r.details ++ (d ∷ []) }
refuse_input false d r = r

abbrev pub refuse_witness : Bool → Detail → ValidationResults → ValidationResults
refuse_witness true d r = record r { witness_validation = false; details = r.details ++ (d ∷ []) }
refuse_witness false d r = r

abbrev pub warn : Bool → Detail → ValidationResults → ValidationResults
warn true d r = record r { details = r.details ++ (d ∷ []) }
warn false d r = r

abbrev pub or_passed : List Detail → List Detail
or_passed [] = all_validations_passed ∷ []
or_passed (d ∷ ds) = d ∷ ds

-- Public input bounds.
abbrev pub check_public : AgePublic → ValidationResults → ValidationResults
check_public public r =
    let r1 = refuse_input (eq_zero public.cutoff_days) cutoff_is_zero r in
    refuse_input (exceeds public.cutoff_days (pos 36500)) (cutoff_too_large public.cutoff_days) r1

-- Witness field bounds.
abbrev pub check_witness : AgeWitness → ValidationResults → ValidationResults
check_witness witness r =
    let r1 = refuse_witness (eq_zero witness.dob_days) dob_is_zero r in
    let r2 = refuse_witness (exceeds witness.dob_days (pos 36500)) dob_exceeds_bound r1 in
    let r3 =
      refuse_witness (not (length witness.r_bits == 128)) (r_bits_length (length witness.r_bits))
        r2 in
    let r4 =
      refuse_witness (not (length witness.sig_rj_bytes == 64))
        (signature_length (length witness.sig_rj_bytes)) r3 in
    let r5 = refuse_witness (leb witness.exp witness.iat) invalid_timestamps r4 in
    refuse_witness (bytes_eq witness.c_bytes (replicate 32 0)) commitment_is_zero r5

unfoldable pub validate_inputs_detailed : AgePublic → AgeWitness → ValidationResults
validate_inputs_detailed public witness =
    let start : ValidationResults = record {
      input_validation = true;
      witness_validation = true;
      constraint_satisfaction = none;
      details = [];
    } in
    let checked = check_witness witness (check_public public start) in
    let noted = warn (exceeds witness.dob_days public.cutoff_days) age_check_may_fail checked in
    record noted {
      input_validation = noted.input_validation && noted.witness_validation;
      details = or_passed noted.details;
    }

unfoldable pub validate_inputs : AgePublic → AgeWitness → Result Error (Unit {0})
validate_inputs public witness =
    if (validate_inputs_detailed public witness).input_validation then ok tt else err invalid_input

-- A day that the prover accepts: not the epoch's first, and at most 36500.
abbrev pub IsDay : ℤ → Type 0
IsDay d = ¬ (d ≡ pos 0) × (d ≤ℤ pos 36500)

-- What the prover wants of its inputs.
abbrev pub IsValid : AgePublic → AgeWitness → Type 0
IsValid public witness =
    IsDay public.cutoff_days
    × IsDay witness.dob_days
    × (length witness.r_bits ≡ 128)
    × (length witness.sig_rj_bytes ≡ 64)
    × (witness.iat < witness.exp)
    × ¬ (witness.c_bytes ≡ replicate 32 0)

-- The flags after one check.
module _ (b : Bool) (d : Detail) (r : ValidationResults) where
  input-refuse_input : (refuse_input b d r).input_validation ≡ (r.input_validation && not b)
  input-refuse_input = ground arith

  witness-refuse_input : (refuse_input b d r).witness_validation ≡ r.witness_validation
  witness-refuse_input = ground arith

  input-refuse_witness : (refuse_witness b d r).input_validation ≡ r.input_validation
  input-refuse_witness = ground arith

  witness-refuse_witness :
      (refuse_witness b d r).witness_validation ≡ (r.witness_validation && not b)
  witness-refuse_witness = ground arith

  input-warn : (warn b d r).input_validation ≡ r.input_validation
  input-warn = ground arith

  witness-warn : (warn b d r).witness_validation ≡ r.witness_validation
  witness-warn = ground arith

eq_zero_iff : (d : ℤ) → (eq_zero d ≡ true) ↔ (d ≡ pos 0)
eq_zero_iff d = ground arith

IsDay-iff : (d : ℤ) → ((not (eq_zero d) && not (exceeds d (pos 36500))) ≡ true) ↔ IsDay d
IsDay-iff d = ground (arith, eq_zero_iff d)

zeros_iff : (b : List ℕ) → (bytes_eq b (replicate 32 0) ≡ true) ↔ (b ≡ replicate 32 0)
zeros_iff b = (bytes_eq_sound b (replicate 32 0), λ e. rw e (bytes_eq_refl (replicate 32 0)))

-- All the checks as one conjunction.
abbrev all_checks : AgePublic → AgeWitness → Bool
all_checks public witness =
    ((not (eq_zero public.cutoff_days)) && not (exceeds public.cutoff_days (pos 36500)))
    && ((((((not (eq_zero witness.dob_days)) && not (exceeds witness.dob_days (pos 36500)))
              && not (not (length witness.r_bits == 128)))
            && not (not (length witness.sig_rj_bytes == 64)))
          && not (leb witness.exp witness.iat))
        && not (bytes_eq witness.c_bytes (replicate 32 0)))

flag :
    (p : AgePublic) (w : AgeWitness)
    → (validate_inputs_detailed p w).input_validation ≡ all_checks p w
unfolding validate_inputs_detailed
flag p w = simp (
  input-warn, witness-warn, input-refuse_witness, witness-refuse_witness, input-refuse_input,
  witness-refuse_input,
)

both_iff : (x y : Bool) → ((x && y) ≡ true) ↔ ((x ≡ true) × (y ≡ true))
both_iff x y = ground arith

all_checks_iff : (p : AgePublic) (w : AgeWitness) → (all_checks p w ≡ true) ↔ IsValid p w
all_checks_iff p w =
    split (not (eq_zero p.cutoff_days) && not (exceeds p.cutoff_days (pos 36500)))
      (not (eq_zero w.dob_days) && not (exceeds w.dob_days (pos 36500))) (length w.r_bits)
      (length w.sig_rj_bytes) w.iat w.exp (bytes_eq w.c_bytes (replicate 32 0)) _ _ _
      (IsDay-iff p.cutoff_days) (IsDay-iff w.dob_days) (zeros_iff w.c_bytes)
  where
    split :
        (x y : Bool) (r g i e : ℕ) (z : Bool) (X Y Z : Type 0)
        → (x ≡ true) ↔ X
        → (y ≡ true) ↔ Y
        → (z ≡ true) ↔ Z
        → ((x && ((((y && not (not (r == 128))) && not (not (g == 64))) && not (leb e i)) && not z))
            ≡ true)
          ↔ (X × Y × (r ≡ 128) × (g ≡ 64) × (i < e) × ¬ Z)
    split true true r g i e z X Y Z hx hy hz = ground arith
    split true false r g i e z X Y Z hx hy hz = ground arith
    split false true r g i e z X Y Z hx hy hz = ground arith
    split false false r g i e z X Y Z hx hy hz = ground arith

pub flag_iff :
    (p : AgePublic) (w : AgeWitness)
    → ((validate_inputs_detailed p w).input_validation ≡ true) ↔ IsValid p w
flag_iff p w = rw flag (all_checks_iff p w)

-- The prover's validation accepts exactly a cutoff and a date of birth that are not day 0 and at
-- most day 36500, 128 bits of randomness, 64 bytes of signature, an issuance before the expiry, and
-- a commitment that is not all zero; anything else is `InvalidInput`.
pub validate_inputs_iff :
    (p : AgePublic) (w : AgeWitness)
    → (IsValid p w → validate_inputs p w ≡ ok tt)
      × (¬ IsValid p w → validate_inputs p w ≡ err invalid_input)
unfolding validate_inputs
validate_inputs_iff p w = decide (validate_inputs_detailed p w).input_validation _ (flag_iff p w)
  where
    decide :
        (b : Bool) (V : Type 0)
        → (b ≡ true) ↔ V
        → let r : Result Error (Unit {0}) = if b then ok tt else err invalid_input in
          (V → r ≡ ok tt) × (¬ V → r ≡ err invalid_input)
    decide b V h = ground arith
