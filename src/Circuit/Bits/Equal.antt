-- ===== src/Circuit/Bits/Equal.antt =====
-- `enforce_bits_equal`: an accepted equality of two bit vectors is an equality, and only that.
use provii_crypto.Prelude.{ℕ, ◌+◌, ◌*◌, ◌%◌, ◌≤◌, ◌≡◌, refl, ap₂, arith, Bool, true}
use provii_crypto.Prelude.{List, [], ◌∷◌, ◌==◌, ==_iff, length, ok, Bool-cases, inl, inr}
use provii_crypto.Circuit.Backend.{
  Bellman, Boolean, same_residue, bits, enforced, ok-ne-err, return_inj,
}
use provii_crypto.Prelude.Bytes.{to_ℕ}
use provii_crypto.Circuit.Bits.{equal_bits, enforce_bits_equal}

equal_bit :
    (q : ℕ) (a b : Bool)
    → 8 ≤ q
    → (((0 + to_ℕ a * 1) * (0 + 1) + 0 * 0 + 0) % q
        == ((0 + to_ℕ a * 1) * 0 + 0 * (0 + 1) + (0 + to_ℕ b * 1)) % q)
      ≡ true
    → a ≡ b
equal_bit q a b large h = ground (
  arith,
  same_residue q ((0 + to_ℕ a * 1) * (0 + 1) + 0 * 0 + 0)
      ((0 + to_ℕ a * 1) * 0 + 0 * (0 + 1) + (0 + to_ℕ b * 1)),
)

module _ (B : Bellman) where
  open B use {System, is_satisfied, modulus, modulus_large}

  pub equal_bits_sound :
      (a b : List Boolean) (s : System) {t : System}
      → length a ≡ length b
      → equal_bits B a b s ≡ ok (tt, t)
      → is_satisfied t ≡ true
      → (is_satisfied s ≡ true) × (bits a ≡ bits b)
  unfolding equal_bits
  equal_bits_sound [] [] s e h g = (rw (return_inj h).1 g, refl)
  equal_bits_sound (x ∷ a) [] s e h g = absurd (omega arith)
  equal_bits_sound [] (y ∷ b) s e h g = absurd (omega arith)
  equal_bits_sound (x ∷ a) (y ∷ b) s e h g =
      let (g1, rest) = equal_bits_sound a b _ (omega arith) h g in
      let (g0, same) = enforced B refl g1 in
      (g0, ap₂ ◌∷◌ (equal_bit modulus x.bit y.bit modulus_large same) rest)

  -- An accepted `enforce_bits_equal` had vectors with the same bits.
  pub enforce_bits_equal_sound :
      (a b : List Boolean) (s : System) {t : System}
      → enforce_bits_equal B a b s ≡ ok (tt, t)
      → is_satisfied t ≡ true
      → (is_satisfied s ≡ true) × (bits a ≡ bits b)
  unfolding enforce_bits_equal
  enforce_bits_equal_sound a b s h g = elim (Bool-cases (length a == length b)) [
    | inl p ↦ equal_bits_sound a b s ((==_iff _ _).0 p) (rw p at h) g
    | inr p ↦ absurd (ok-ne-err (rw p at h))
  ]
