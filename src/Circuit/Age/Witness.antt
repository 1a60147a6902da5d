-- ===== src/Circuit/Age/Witness.antt =====
-- `AgeWitness::new`: exactly which arguments make a witness.
use provii_crypto.Prelude.{
  ℕ, zero, suc, ◌≡◌, ◌↔◌, refl, arith, Bool, true, false, not, List, [], ◌∷◌, ok, err, length,
  replicate,
}
use provii_crypto.Prelude.{Result, ◌==◌, if◌then◌else◌}
use provii_crypto.Prelude.Bytes.{bytes_eq, bytes_eq_sound, bytes_eq_refl}
use provii_crypto.Commons.{Error, invalid_input}
use provii_crypto.Circuit.Age.{AgeWitness, all_zero, new_witness}

-- The sizes that the circuit has, and no field that is all zero where a real one never is.
abbrev pub IsWellFormed : AgeWitness → Type 0
IsWellFormed w =
    (length w.kid ≡ 14)
    × (length w.schema ≡ 12)
    × (length w.r_bits ≡ 128)
    × (length w.sig_rj_bytes ≡ 64)
    × ¬ (w.c_bytes ≡ replicate 32 0)
    × ¬ (w.sig_rj_bytes ≡ replicate 64 0)

-- The constructor applied to a witness's own fields.
abbrev pub rebuild : AgeWitness → Result Error AgeWitness
rebuild w =
    new_witness w.dob_days w.r_bits w.issuer_vk_bytes w.sig_rj_bytes w.v w.kid w.c_bytes w.iat w.exp
      w.schema

all_zero_sound : (xs : List ℕ) → all_zero xs ≡ true → xs ≡ replicate (length xs) 0
all_zero_sound [] h = refl
all_zero_sound (x ∷ xs) h = ground (arith, all_zero_sound xs)

all_zero_refl : (n : ℕ) → all_zero (replicate n 0) ≡ true
all_zero_refl zero = refl
all_zero_refl (suc n) = all_zero_refl n

ladder :
    (k s r g : ℕ) (c z : Bool) (w : AgeWitness) (C Z : Type 0)
    → (c ≡ true) ↔ C
    → (g ≡ 64 → (z ≡ true) ↔ Z)
    → let out : Result Error AgeWitness =
        if not (k == 14)
        then err invalid_input
        else if not (s == 12)
        then err invalid_input
        else if not (r == 128)
        then err invalid_input
        else if not (g == 64)
        then err invalid_input
        else if c
        then err invalid_input
        else if z
        then err invalid_input
        else ok w in
      let good = (k ≡ 14) × (s ≡ 12) × (r ≡ 128) × (g ≡ 64) × ¬ C × ¬ Z in
      (good → out ≡ ok w) × (¬ good → out ≡ err invalid_input)
ladder k s r g true true w C Z hc hz = ground arith
ladder k s r g true false w C Z hc hz = ground arith
ladder k s r g false true w C Z hc hz = ground arith
ladder k s r g false false w C Z hc hz = ground arith

-- `AgeWitness::new` returns its arguments as a witness exactly when the sizes are the circuit's and
-- neither the commitment nor the signature is all zero, and `InvalidInput` otherwise.
pub new_witness_lem :
    (w : AgeWitness)
    → (IsWellFormed w → rebuild w ≡ ok w) × (¬ IsWellFormed w → rebuild w ≡ err invalid_input)
unfolding new_witness
new_witness_lem w =
    ladder (length w.kid) (length w.schema) (length w.r_bits) (length w.sig_rj_bytes)
      (bytes_eq w.c_bytes (replicate 32 0)) (all_zero w.sig_rj_bytes) w (w.c_bytes ≡ replicate 32 0)
      (w.sig_rj_bytes ≡ replicate 64 0)
      (bytes_eq_sound _ _, λ e. rw e (bytes_eq_refl (replicate 32 0)))
      (λ l. (λ h. rw l at (all_zero_sound w.sig_rj_bytes h), λ e. rw e (all_zero_refl 64)))
