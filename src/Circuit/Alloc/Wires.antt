-- ===== src/Circuit/Alloc/Wires.antt =====
-- What allocation returns: as many wires as the type has bits, with the values asked for, and for an
-- honest prover the wires that carry the bits.
use provii_crypto.Prelude.{ℕ, suc, ◌≡◌, refl, ap, ap₂, sym, ◌∙◌}
use provii_crypto.Prelude.{Bool, true, List, [], ◌∷◌, Option, some, ok, map, length, ==_refl}
use provii_crypto.Prelude.Bytes.{bits_from, byte_bits}
use provii_crypto.PublicInputs.{bits_le_from_bytes}
use provii_crypto.Circuit.Backend.{Bellman, Boolean, IsHonest, known, on_ok, return_inj}
use provii_crypto.Circuit.Bits.Complete.{Returns, Returns-bind}
use provii_crypto.Circuit.Alloc.{
  alloc_u32_input, alloc_all, alloc_u8_bits, alloc_u8_witness, alloc_bytes_witness_fixed,
}

abbrev pub get_values : List Boolean → List (Option Bool)
get_values [] = []
get_values (x ∷ xs) = x.get_value ∷ get_values xs

pub length-get_values : (xs : List Boolean) → length (get_values xs) ≡ length xs
length-get_values [] = refl
length-get_values (x ∷ xs) = ap suc (length-get_values xs)

module _ (B : Bellman) where
  open B use {System, is_satisfied}

  -- Allocation neither adds nor drops a bit and keeps the values, and a system that accepts
  -- afterwards accepted before.
  pub alloc_all_lem :
      (values : List (Option Bool)) (s : System) {wires : List Boolean} {t : System}
      → alloc_all B values s ≡ ok (wires, t)
      → (get_values wires ≡ values) × (is_satisfied t ≡ true → is_satisfied s ≡ true)
  unfolding alloc_all
  alloc_all_lem [] s h = let (w, t) = return_inj h in (ap get_values (sym w), λ g. rw t g)
  alloc_all_lem (v ∷ values) s h = on_ok (B.alloc v s) _ h λ x s1 hx h1.
      on_ok (alloc_all B values s1) _ h1 λ xs s2 hxs h2.
        let (same, back) = alloc_all_lem values s1 hxs in
        let (w, e) = return_inj h2 in
        (
          ap get_values (sym w) ∙ ap₂ ◌∷◌ (B.alloc_get_value v s hx) same,
          λ g. B.alloc_is_satisfied v s hx (back (rw e g)),
        )

module _ (B : Bellman) (H : IsHonest B) where
  open B use {System, is_satisfied}

  pub alloc_all-known :
      (us : List Bool) (s : System) → Returns B (alloc_all B (map some us) s) s (map known us)
  unfolding alloc_all
  alloc_all-known [] s = (s, refl, refl)
  alloc_all-known (u ∷ us) s =
      Returns-bind B _ _ s _ _ (H.alloc_known u s)
        λ t. Returns-bind B _ _ t _ _ (alloc_all-known us t) λ t'. (t', refl, refl)

module _ (B : Bellman) (H : IsHonest B) where
  open B use {System, is_satisfied}

  -- An honest prover's wires carry the values, lowest bit of a byte first: a `u8` and a public `u32`
  -- by their bits, and a byte string of the expected length by the bits of its bytes. No allocation
  -- fails or adds an unsatisfied constraint.
  pub alloc_known_wires :
      (b v : ℕ) (bytes : List ℕ) (s : System)
      → Returns B (alloc_u8_witness B (some b) s) s (map known (byte_bits b))
        × Returns B (alloc_u32_input B v s) s (map known (bits_from 32 0 v))
        × Returns B
            (alloc_bytes_witness_fixed B (some bytes) (length bytes) s)
            s
            (map known (bits_le_from_bytes bytes))
  unfolding alloc_u8_witness alloc_u8_bits alloc_u32_input alloc_bytes_witness_fixed
  alloc_known_wires b v bytes s = (
    alloc_all-known B H (byte_bits b) s,
    alloc_all-known B H (bits_from 32 0 v) s,
    rw (==_refl (length bytes)) (alloc_all-known B H (bits_le_from_bytes bytes) s),
  )
