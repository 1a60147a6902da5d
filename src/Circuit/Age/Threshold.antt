-- ===== src/Circuit/Age/Threshold.antt =====
-- The age comparison in terms of signed days: sound for any assignment, complete for an honest one.
use provii_crypto.Prelude.{◌≤◌, ◌≡◌, ap, sym, ◌∙◌, arith, Bool, true, false, if◌then◌else◌}
use provii_crypto.Prelude.{List, ok, length, map}
use provii_crypto.Prelude.Int.{ℤ, IsI32, ◌≤ℤ◌}
use provii_crypto.Prelude.Bytes.{bits_from, value, value-bits_from, length-bits_from}
use provii_crypto.Commons.{bias_for_circuit}
use provii_crypto.Commons.Bias.{bias-lt, bias_order}
use provii_crypto.Circuit.Backend.{Bellman, Boolean, IsHonest, known, bits, on_ok}
use provii_crypto.Circuit.Bits.{conditional_swap}
use provii_crypto.Circuit.Bits.Swap.{conditional_swap_sound}
use provii_crypto.Circuit.Bits.Compare.{enforce_ge_sound}
use provii_crypto.Circuit.Bits.Complete.{
  Returns, Returns-bind, conditional_swap_complete, enforce_ge_complete,
}
use provii_crypto.Circuit.Age.{age_check}

-- Bits of a biased day count.
abbrev pub day_bits : ℤ → List Bool
day_bits d = bits_from 32 0 (bias_for_circuit d)

-- What is proved: a birth on or before the cutoff for `Over`, on or after it for `Under`.
abbrev pub Qualifies : Bool → ℤ → ℤ → Type 0
Qualifies true cutoff dob = dob ≤ℤ cutoff
Qualifies false cutoff dob = cutoff ≤ℤ dob

value-day_bits : (d : ℤ) → IsI32 d → value (day_bits d) ≡ bias_for_circuit d
value-day_bits d h = value-bits_from 32 (bias_for_circuit d) (bias-lt d h)

length-day_bits : (a b : ℤ) → length (day_bits a) ≡ length (day_bits b)
length-day_bits a b = length-bits_from 32 0 _ ∙ sym (length-bits_from 32 0 _)

pub Qualifies-of_le :
    (over : Bool) (cutoff dob : ℤ)
    → IsI32 cutoff
    → IsI32 dob
    → value (if over then day_bits dob else day_bits cutoff)
      ≤ value (if over then day_bits cutoff else day_bits dob)
    → Qualifies over cutoff dob
Qualifies-of_le true cutoff dob hc hd h =
    (bias_order dob cutoff hd hc).0 (omega (arith, value-day_bits cutoff hc, value-day_bits dob hd))
Qualifies-of_le false cutoff dob hc hd h =
    (bias_order cutoff dob hc hd).0 (omega (arith, value-day_bits cutoff hc, value-day_bits dob hd))

le_of_Qualifies :
    (over : Bool) (cutoff dob : ℤ)
    → IsI32 cutoff
    → IsI32 dob
    → Qualifies over cutoff dob
    → value (if over then day_bits dob else day_bits cutoff)
      ≤ value (if over then day_bits cutoff else day_bits dob)
le_of_Qualifies true cutoff dob hc hd h =
    omega
      (arith, (bias_order dob cutoff hd hc).1 h, value-day_bits cutoff hc, value-day_bits dob hd)
le_of_Qualifies false cutoff dob hc hd h =
    omega
      (arith, (bias_order cutoff dob hc hd).1 h, value-day_bits cutoff hc, value-day_bits dob hd)

module _ (B : Bellman) where
  open B use {System, is_satisfied}

  -- The comparison of the assigned words.
  pub age_check_order :
      (direction_bit : Boolean) (cutoff_bits dob_bits : List Boolean) (s : System) {t : System}
      → age_check B direction_bit cutoff_bits dob_bits s ≡ ok (tt, t)
      → is_satisfied t ≡ true
      → (is_satisfied s ≡ true)
        × (value (if direction_bit.bit then bits dob_bits else bits cutoff_bits)
            ≤ value (if direction_bit.bit then bits cutoff_bits else bits dob_bits))
  unfolding age_check
  age_check_order direction_bit cutoff_bits dob_bits s h g =
      on_ok (conditional_swap B direction_bit cutoff_bits dob_bits s) _ h λ pair s1 hs h1.
        let (g1, same, le) = enforce_ge_sound B pair.0 pair.1 s1 h1 g in
        let (g0, l, r, same') =
          conditional_swap_sound B direction_bit cutoff_bits dob_bits s {l = pair.0} {r = pair.1} hs
            g1 in
        (g0, omega (arith, ap value l, ap value r))

  -- If the circuit's comparison is accepted on bits of biased `i32` days, then the date of birth is
  -- at or before the cutoff when the direction bit is set, and at or after it when it is clear,
  -- whatever the prover assigned to the wires of the multiplexer and of the comparison.
  pub age_check_sound :
      (direction_bit : Boolean) (cutoff_bits dob_bits : List Boolean) (cutoff dob : ℤ) (s : System)
      {t : System}
      → IsI32 cutoff
      → IsI32 dob
      → bits cutoff_bits ≡ day_bits cutoff
      → bits dob_bits ≡ day_bits dob
      → age_check B direction_bit cutoff_bits dob_bits s ≡ ok (tt, t)
      → is_satisfied t ≡ true
      → (is_satisfied s ≡ true) × Qualifies direction_bit.bit cutoff dob
  age_check_sound direction_bit cutoff_bits dob_bits cutoff dob s hc hd ec ed h g =
      let (g0, le) = age_check_order direction_bit cutoff_bits dob_bits s h g in
      (g0, Qualifies-of_le direction_bit.bit cutoff dob hc hd (rw (ec, ed) at le))

module _ (B : Bellman) (H : IsHonest B) where
  open B use {System}

  -- An honest prover can show every true age statement: on known bits of biased `i32` days that
  -- qualify, the comparison succeeds and keeps the system satisfied.
  pub age_check_complete :
      (over : Bool) (cutoff dob : ℤ) (s : System)
      → IsI32 cutoff
      → IsI32 dob
      → Qualifies over cutoff dob
      → Returns B
          (age_check B (known over) (map known (day_bits cutoff)) (map known (day_bits dob)) s)
          s
          tt
  unfolding age_check
  age_check_complete over cutoff dob s hc hd h =
      Returns-bind B _ _ s _ _
        (conditional_swap_complete B H over (day_bits cutoff) (day_bits dob) s
          (length-day_bits cutoff dob))
        λ t.
          enforce_ge_complete B H (if over then day_bits cutoff else day_bits dob)
            (if over then day_bits dob else day_bits cutoff) t (lengths over)
            (le_of_Qualifies over cutoff dob hc hd h)
    where
      lengths :
          (over : Bool)
          → length (if over then day_bits cutoff else day_bits dob)
            ≡ length (if over then day_bits dob else day_bits cutoff)
      lengths true = length-day_bits cutoff dob
      lengths false = length-day_bits dob cutoff
