-- ===== src/Circuit/Synthesis/HonestExample.antt =====
-- The instance on two points is honest: its gadgets compute the values that they should.
use provii_crypto.Prelude.{
  ◌≡◌, refl, sym, ap, ◌∙◌, Bool, true, false, not, ◌&&◌, List, [], ◌∷◌, ◌++◌, append_assoc, ok, map,
}
use mathlib.Core.Path.{subst}
use provii_crypto.Prelude.Bytes.{value}
use provii_crypto.PublicInputs.Tests.{packing}
use provii_crypto.Circuit.Backend.{IsHonest, known}
use provii_crypto.Circuit.Bits.{require}
use provii_crypto.Circuit.Bits.Complete.{Returns}
use provii_crypto.Circuit.Prehash.Parity.{bits-map-constant}
use provii_crypto.Circuit.Curve.{IsHonestSapling, IsHonestExposing}
use provii_crypto.Circuit.Synthesis.TwoPoints.{two_points, parity}
use provii_crypto.Circuit.Synthesis.Example.{
  bits_eq, is_prefix, Exposed, accepted, exposing_system, expose, exposing, gadgets,
}

bits_eq_refl : (xs : List Bool) → bits_eq xs xs ≡ true
bits_eq_refl [] = refl
bits_eq_refl (true ∷ xs) = bits_eq_refl xs
bits_eq_refl (false ∷ xs) = bits_eq_refl xs

is_prefix_append : (xs ys : List (List Bool)) → is_prefix xs (xs ++ ys) ≡ true
is_prefix_append [] ys = refl
is_prefix_append (x ∷ xs) ys = rw (bits_eq_refl x) (is_prefix_append xs ys)

module _ (inputs : List (List Bool)) where
  pub exposing_system-IsHonest : IsHonest (exposing_system inputs)
  exposing_system-IsHonest = record {
    alloc_known = λ v s. (s, refl, refl);
    and_known = λ u v s. (s, refl, refl);
  }

  large_point :
      (p : Bool) (s : Exposed) → not p ≡ false → Returns (exposing_system inputs) (require p s) s tt
  large_point true s h = (s, refl, refl)
  large_point false s h = absurd (cc)

  pub gadgets-IsHonestSapling : IsHonestSapling (gadgets inputs)
  gadgets-IsHonestSapling = record {
    witness_known = λ p s. (s, refl, refl);
    not_small_order_known = large_point;
    repr_known = λ p s. (s, refl, refl);
    mul_known =
        λ p us s. (s, ap (λ b. ok (two_points.scale p (value b), s)) (bits-map-constant us), refl);
    add_known = λ p q s. (s, refl, refl);
    pedersen_known = λ tag us s short. (s, ap (λ b. ok (parity b, s)) (bits-map-constant us), refl);
    blake2s_known = λ bytes tag s. (s, refl, refl);
  }

  -- Before and after, what is exposed is a prefix of the inputs.
  packs_known :
      (us : List Bool) (s : Exposed) (rest : List (List Bool))
      → s.scalars ++ (packing.compute_multipacking us ++ rest) ≡ inputs
      → (t : Exposed) × (expose inputs (map known us) s ≡ ok (tt, t))
        × (accepted inputs t ≡ accepted inputs s)
        × (t.scalars ≡ s.scalars ++ packing.compute_multipacking us)
  packs_known us s rest e =
      let mp = packing.compute_multipacking us in
      let before : is_prefix s.scalars inputs ≡ true =
        subst (λ i. is_prefix s.scalars i ≡ true) e (is_prefix_append s.scalars (mp ++ rest)) in
      let after : is_prefix (s.scalars ++ mp) inputs ≡ true =
        subst (λ i. is_prefix (s.scalars ++ mp) i ≡ true) (append_assoc s.scalars mp rest ∙ e)
          (is_prefix_append (s.scalars ++ mp) rest) in
      (
        record s { scalars = s.scalars ++ mp },
        ap (λ b. ok (tt, record s { scalars = s.scalars ++ packing.compute_multipacking b }))
            (bits-map-constant us),
        ap (λ b. s.satisfied && b) (after ∙ sym before),
        refl,
      )

  pub exposing-IsHonestExposing : IsHonestExposing (exposing inputs)
  exposing-IsHonestExposing = record { pack_known = packs_known }
