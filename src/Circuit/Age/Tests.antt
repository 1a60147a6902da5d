-- ===== src/Circuit/Age/Tests.antt =====
-- A birth in 1960 under a cutoff in 2008, and the theorems at it.
use provii_crypto.Prelude.{◌≡◌, refl, arith, true, [], map, ok, err, replicate}
use provii_crypto.Prelude.Int.{pos, negsuc, ◌≤ℤ◌}
use provii_crypto.Commons.{invalid_input}
use provii_crypto.Circuit.Backend.{Bellman, known, Counted, counted, honest, honest-IsHonest}
use provii_crypto.Circuit.Bits.Complete.{Returns}
use provii_crypto.Circuit.Age.{AgeWitness, age_check, new_witness}
use provii_crypto.Circuit.Age.Threshold.{day_bits, age_check_sound, age_check_complete}
use provii_crypto.Circuit.Age.Witness.{IsWellFormed, rebuild, new_witness_lem}
use provii_crypto.Circuit.Prehash.Parity.{bits-map-constant}

abbrev prover : Bellman
prover = counted honest

abbrev start : Counted
start = record { allocated = 0; satisfied = true }

age_run :
    Returns prover
      (age_check prover
        (known true)
        (map known (day_bits (pos 13880)))
        (map known (day_bits (negsuc 3651)))
        start)
      start
      tt
age_run =
    age_check_complete prover honest-IsHonest true (pos 13880) (negsuc 3651) start (omega arith)
      (omega arith) (omega arith)

age_check_sound_example : (start.satisfied ≡ true) × (negsuc 3651 ≤ℤ pos 13880)
age_check_sound_example =
    age_check_sound prover (known true) (map known (day_bits (pos 13880)))
      (map known (day_bits (negsuc 3651))) (pos 13880) (negsuc 3651) start {t = age_run.0}
      (omega arith) (omega arith) (bits-map-constant (day_bits (pos 13880)))
      (bits-map-constant (day_bits (negsuc 3651))) age_run.1 age_run.2

abbrev witness : AgeWitness
witness = record {
  dob_days = negsuc 3651;
  r_bits = replicate 128 true;
  issuer_vk_bytes = replicate 32 85;
  sig_rj_bytes = replicate 64 9;
  v = 2;
  kid = replicate 14 107;
  c_bytes = replicate 32 7;
  iat = 258;
  exp = 513;
  schema = replicate 12 115;
}

new_witness_lem_example :
    (IsWellFormed witness → rebuild witness ≡ ok witness)
    × (¬ IsWellFormed witness → rebuild witness ≡ err invalid_input)
new_witness_lem_example = new_witness_lem witness

short_kid : rebuild (record witness { kid = [] }) ≡ err invalid_input
unfolding new_witness
short_kid = refl
