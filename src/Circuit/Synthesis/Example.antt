-- ===== src/Circuit/Synthesis/Example.antt =====
-- A system that records what it exposes and an honest prover's gadgets over the curve of two points: the
-- interfaces at a concrete instance, on which a synthesis can be run.
use provii_crypto.Prelude.{
  ◌<◌, ◌≡◌, refl, sym, ap, ap₂, arith, Bool, true, false, not, ◌&&◌, List, [], ◌∷◌, ◌++◌, Option,
  ok, map,
}
use provii_crypto.Prelude.Bytes.{to_ℕ, value}
use provii_crypto.PublicInputs.{bits_le_from_bytes}
use provii_crypto.PublicInputs.Tests.{packing}
use provii_crypto.Circuit.Backend.{
  Bellman, Boolean, Synth, bits, known, holds, return, return_inj, both, bls12_381_modulus, large,
  Lc,
}
use provii_crypto.Circuit.Bits.{require}
use provii_crypto.Circuit.Accepts.{Accepts, Accepts-return, Accepts-map, Accepts-require}
use provii_crypto.Circuit.Prehash.Parity.{bits-map-constant}
use provii_crypto.Circuit.Curve.{Sapling, Exposing}
use mathlib.Core.Option
use provii_crypto.Circuit.Synthesis.TwoPoints.{flip, parity, encode, digest, two_points}

abbrev pub bits_eq : List Bool → List Bool → Bool
bits_eq [] [] = true
bits_eq [] (y ∷ ys) = false
bits_eq (x ∷ xs) [] = false
bits_eq (x ∷ xs) (y ∷ ys) = not (flip x y) && bits_eq xs ys

pub bits_eq_sound : (xs ys : List Bool) → bits_eq xs ys ≡ true → xs ≡ ys
bits_eq_sound [] [] h = refl
bits_eq_sound [] (y ∷ ys) h = cc
bits_eq_sound (x ∷ xs) [] h = cc
bits_eq_sound (x ∷ xs) (y ∷ ys) h = ground (arith, bits_eq_sound xs ys)

abbrev pub is_prefix : List (List Bool) → List (List Bool) → Bool
is_prefix [] ys = true
is_prefix (x ∷ xs) [] = false
is_prefix (x ∷ xs) (y ∷ ys) = bits_eq x y && is_prefix xs ys

is_prefix_sound :
    (xs ys : List (List Bool))
    → is_prefix xs ys ≡ true
    → (rest : List (List Bool)) × (xs ++ rest ≡ ys)
is_prefix_sound [] ys h = (ys, refl)
is_prefix_sound (x ∷ xs) [] h = absurd (cc)
is_prefix_sound (x ∷ xs) (y ∷ ys) h =
    let a : bits_eq x y ≡ true = ground arith in
    let b : is_prefix xs ys ≡ true = ground arith in
    let (rest, e) = is_prefix_sound xs ys b in (rest, ap₂ ◌∷◌ (bits_eq_sound x y a) e)

pub coordinates-lt : (p : Bool) → (to_ℕ p < bls12_381_modulus) × (1 < bls12_381_modulus)
coordinates-lt p = (ground (arith, large), omega arith)

pub record Exposed : Type 0 where
  pub scalars : List (List Bool)
  pub satisfied : Bool

-- The system against given public inputs.
module _ (inputs : List (List Bool)) where
  abbrev pub accepted : Exposed → Bool
  accepted s = s.satisfied && is_prefix s.scalars inputs

  abbrev pub keep_bit : Option Bool → Synth Exposed Boolean
  keep_bit v s = ok (record { get_value = v; bit = Option.get_or v false }, s)

  abbrev pub keep_and : Boolean → Boolean → Synth Exposed Boolean
  keep_and x y s = ok (record { get_value = both x.get_value y.get_value; bit = x.bit && y.bit }, s)

  pub keep_bit_back :
      (v : Option Bool) (s : Exposed) {x : Boolean} {t : Exposed}
      → keep_bit v s ≡ ok (x, t)
      → (x.get_value ≡ v) × (s ≡ t)
  keep_bit_back v s h = let (e, f) = return_inj h in (ap (λ (x : Boolean). x.get_value) (sym e), f)

  pub keep_and_sound :
      (x y : Boolean) (s : Exposed) {z : Boolean} {t : Exposed}
      → keep_and x y s ≡ ok (z, t)
      → accepted t ≡ true
      → (z.bit ≡ (x.bit && y.bit)) × (accepted s ≡ true)
  keep_and_sound x y s h g =
      let (e, f) = return_inj h in (ap (λ (z : Boolean). z.bit) (sym e), rw f g)

  abbrev pub keep_enforce : Lc → Lc → Lc → Exposed → Exposed
  keep_enforce a b c s = record s { satisfied = s.satisfied && holds bls12_381_modulus a b c }

  pub keep_enforce_lem :
      (a b c : Lc) (s : Exposed)
      → accepted (keep_enforce a b c s) ≡ (accepted s && holds bls12_381_modulus a b c)
  keep_enforce_lem a b c s =
      swap s.satisfied (is_prefix s.scalars inputs) (holds bls12_381_modulus a b c)
    where
      swap : (x y z : Bool) → ((x && z) && y) ≡ ((x && y) && z)
      swap x y z = ground arith

  abbrev pub exposing_system : Bellman
  exposing_system = record {
    System = Exposed;
    modulus = bls12_381_modulus;
    is_satisfied = accepted;
    alloc = keep_bit;
    and_wires = keep_and;
    enforce = keep_enforce;
    modulus_large = large;
    alloc_get_value = λ v s h. (keep_bit_back v s h).0;
    alloc_is_satisfied = λ v s h g. rw (keep_bit_back v s h).1 g;
    and_wires_sound = keep_and_sound;
    enforce_lem = keep_enforce_lem;
  }

  abbrev pub expose : List Boolean → Synth Exposed (Unit {0})
  expose wires s =
      ok (tt, record s { scalars = s.scalars ++ packing.compute_multipacking (bits wires) })

  prefix_back :
      (xs zs ys : List (List Bool)) → is_prefix (xs ++ zs) ys ≡ true → is_prefix xs ys ≡ true
  prefix_back [] zs ys h = refl
  prefix_back (x ∷ xs) zs [] h = absurd (cc)
  prefix_back (x ∷ xs) zs (y ∷ ys) h = ground (arith, prefix_back xs zs ys)

  pub expose_sound :
      (wires : List Boolean) (s : Exposed) {t : Exposed}
      → expose wires s ≡ ok (tt, t)
      → accepted t ≡ true
      → (accepted s ≡ true) × (t.scalars ≡ s.scalars ++ packing.compute_multipacking (bits wires))
  expose_sound wires s {t} h g =
      let (_, f) = return_inj h in
      (
        still s.satisfied (is_prefix s.scalars inputs) _
            (prefix_back s.scalars (packing.compute_multipacking (bits wires)) inputs)
            (rw (← f) at g),
        ap (λ (t : Exposed). t.scalars) (sym f),
      )
    where
      still : (x y z : Bool) → (z ≡ true → y ≡ true) → (x && z) ≡ true → (x && y) ≡ true
      still x y z k h = ground arith

  pub accepted_agrees :
      (s : Exposed) → accepted s ≡ true → (rest : List (List Bool)) × (s.scalars ++ rest ≡ inputs)
  accepted_agrees s h = is_prefix_sound s.scalars inputs (ground arith)

  abbrev pub exposing : Exposing exposing_system packing
  exposing = record {
    public_inputs = inputs;
    exposed = λ s. s.scalars;
    pack_into_inputs = expose;
    alloc_exposed = λ v s h. ap (λ (t : Exposed). t.scalars) (sym (keep_bit_back v s h).1);
    pack_into_inputs_sound = expose_sound;
    agrees = accepted_agrees;
  }

  abbrev pub plain_bits : List Bool → Synth Exposed (List Boolean)
  plain_bits us = return (map known us)

  pub plain_bits_sound :
      (us : List Bool) → Accepts exposing_system (plain_bits us) (λ w. bits w ≡ us)
  plain_bits_sound us = Accepts-return exposing_system (map known us) (bits-map-constant us)

  pub plain_sound : {A : Type 0} (a : A) → Accepts exposing_system (return a) (λ b. b ≡ a)
  plain_sound a = Accepts-return exposing_system a refl

  pub small_sound : (p : Bool) → Accepts exposing_system (require p) (λ _. not p ≡ false)
  small_sound p = Accepts-map exposing_system (Accepts-require exposing_system p) λ _ h. rw h refl

  abbrev pub point_of : Option Bool → Bool
  point_of p = Option.get_or p true

  abbrev pub gadgets : Sapling exposing_system two_points
  gadgets = record {
    coordinates_small = λ p. coordinates-lt p;
    witness = λ p. return (point_of p);
    assert_not_small_order = require;
    repr = λ p. plain_bits (bits_le_from_bytes (encode p));
    mul = λ p by. return (two_points.scale p (value (bits by)));
    add = λ p q. return (flip p q);
    pedersen = λ tag input. return (parity (bits input));
    blake2s_gadget = λ input tag. plain_bits (bits_le_from_bytes digest);
    witness_sound = λ p. Accepts-return exposing_system (point_of p) tt;
    assert_not_small_order_sound = small_sound;
    repr_sound = λ p. plain_bits_sound (bits_le_from_bytes (encode p));
    mul_sound = λ p by. plain_sound (two_points.scale p (value (bits by)));
    add_sound = λ p q. plain_sound (flip p q);
    pedersen_sound = λ tag input. Accepts-return exposing_system (parity (bits input)) λ _. refl;
    blake2s_sound = λ input tag.
        Accepts-return exposing_system (map known (bits_le_from_bytes digest))
          λ bytes h. bits-map-constant (bits_le_from_bytes digest);
  }
