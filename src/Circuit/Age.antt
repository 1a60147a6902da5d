-- ===== src/Circuit/Age.antt =====
-- crypto-circuit-age/src/lib.rs: the age comparison of the circuit (step 5 of `synthesize`) and the
-- validated construction of a witness.
pub mod Threshold
pub mod Witness
mod Tests
use provii_crypto.Prelude.{
  ℕ, Bool, true, false, not, ◌||◌, ◌&&◌, List, [], ◌∷◌, Result, ok, err, ◌==◌, if◌then◌else◌,
  length, replicate,
}
use provii_crypto.Prelude.Int.{ℤ}
use provii_crypto.Prelude.Bytes.{bytes_eq}
use provii_crypto.Commons.{Error, invalid_input}
use provii_crypto.Circuit.Backend.{Bellman, Boolean, Synth, ◌>>=◌}
use provii_crypto.Circuit.Bits.{conditional_swap, enforce_ge}

abbrev pub kid_size_bytes : ℕ
kid_size_bytes = 14

abbrev pub schema_size_bytes : ℕ
schema_size_bytes = 12

module _ (B : Bellman) where
  open B use {System}

  -- The multiplexer and the comparison, on the direction bit, the cutoff and the date of birth.
  unfoldable pub age_check : Boolean → List Boolean → List Boolean → Synth System (Unit {0})
  age_check direction_bit cutoff_bits dob_bits = do
    (ge_left, ge_right) ← conditional_swap B direction_bit cutoff_bits dob_bits
    enforce_ge B ge_left ge_right

pub record AgeWitness : Type 0 where
  pub dob_days : ℤ
  pub r_bits : List Bool
  pub issuer_vk_bytes : List ℕ
  pub sig_rj_bytes : List ℕ
  pub v : ℕ
  pub kid : List ℕ
  pub c_bytes : List ℕ
  pub iat : ℕ
  pub exp : ℕ
  pub schema : List ℕ

-- `iter().all(|&b| b == 0)`
abbrev pub all_zero : List ℕ → Bool
all_zero [] = true
all_zero (b ∷ bytes) = b == 0 && all_zero bytes

-- `AgeWitness::new`; its arguments are the fields, in this order.
pub new_witness :
    ℤ → List Bool → List ℕ → List ℕ → ℕ → List ℕ → List ℕ → ℕ → ℕ → List ℕ → Result Error AgeWitness
new_witness dob_days r_bits issuer_vk_bytes sig_rj_bytes v kid c_bytes iat exp schema =
    if not (length kid == kid_size_bytes)
    then err invalid_input
    else if not (length schema == schema_size_bytes)
    then err invalid_input
    else if not (length r_bits == 128)
    then err invalid_input
    else if not (length sig_rj_bytes == 64)
    then err invalid_input
    else if bytes_eq c_bytes (replicate 32 0)
    then err invalid_input
    else if all_zero sig_rj_bytes
    then err invalid_input
    else ok (record {
      dob_days = dob_days;
      r_bits = r_bits;
      issuer_vk_bytes = issuer_vk_bytes;
      sig_rj_bytes = sig_rj_bytes;
      v = v;
      kid = kid;
      c_bytes = c_bytes;
      iat = iat;
      exp = exp;
      schema = schema;
    })
