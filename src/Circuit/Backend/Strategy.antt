-- ===== src/Circuit/Backend/Strategy.antt =====
-- Values of the interface: a system that counts the allocated bits and lets a given strategy choose
-- each of them. The honest strategy takes the value that the gadget computed.
use provii_crypto.Prelude.{
  ℕ, ◌+◌, ◌≤◌, ◌≡◌, refl, arith, Bool, true, false, ◌&&◌, Option, some, none,
}
use provii_crypto.Prelude.{ok}
use mathlib.Core.Option
use provii_crypto.Circuit.Backend.Interface.{Boolean, holds, Synth, Bellman, IsHonest}

abbrev pub bls12_381_modulus : ℕ
bls12_381_modulus = 52435875175126190479447740508185965837690552500527637822603658699938581184513

pub large : 8 ≤ bls12_381_modulus
large = omega arith

pub record Counted : Type 0 where
  pub allocated : ℕ
  pub satisfied : Bool

abbrev pub both : Option Bool → Option Bool → Option Bool
both (some u) (some v) = some (u && v)
both (some u) none = none
both none y = none

module _ (choose : ℕ → Option Bool → Bool) where
  abbrev pub choose_bit : Option Bool → Synth Counted Boolean
  choose_bit v s = ok (
    record { get_value = v; bit = choose s.allocated v },
    record s { allocated = s.allocated + 1 },
  )

  abbrev pub choose_and : Boolean → Boolean → Synth Counted Boolean
  choose_and x y s = ok (
    record { get_value = both x.get_value y.get_value; bit = x.bit && y.bit },
    record s { allocated = s.allocated + 1 },
  )

  pub choose_bit-get_value :
      (v : Option Bool) (s : Counted) {x : Boolean} {t : Counted}
      → choose_bit v s ≡ ok (x, t)
      → x.get_value ≡ v
  choose_bit-get_value v s h = ground arith

  pub choose_bit_sound :
      (v : Option Bool) (s : Counted) {x : Boolean} {t : Counted}
      → choose_bit v s ≡ ok (x, t)
      → t.satisfied ≡ true
      → s.satisfied ≡ true
  choose_bit_sound v s h g = ground arith

  pub choose_and_sound :
      (x y : Boolean) (s : Counted) {z : Boolean} {t : Counted}
      → choose_and x y s ≡ ok (z, t)
      → t.satisfied ≡ true
      → (z.bit ≡ (x.bit && y.bit)) × (s.satisfied ≡ true)
  choose_and_sound x y s h g = ground arith

abbrev pub counted : (ℕ → Option Bool → Bool) → Bellman
counted choose = record {
  System = Counted;
  modulus = bls12_381_modulus;
  is_satisfied = λ s. s.satisfied;
  alloc = choose_bit choose;
  and_wires = choose_and choose;
  enforce = λ a b c s. record s { satisfied = s.satisfied && holds bls12_381_modulus a b c };
  modulus_large = large;
  alloc_get_value = choose_bit-get_value choose;
  alloc_is_satisfied = choose_bit_sound choose;
  and_wires_sound = choose_and_sound choose;
  enforce_lem = λ a b c s. refl;
}

abbrev pub honest : ℕ → Option Bool → Bool
honest n v = Option.get_or v false

pub honest-IsHonest : IsHonest (counted honest)
honest-IsHonest = record {
  alloc_known = λ v s. (record s { allocated = s.allocated + 1 }, refl, refl);
  and_known = λ u v s. (record s { allocated = s.allocated + 1 }, refl, refl);
}
