-- ===== src/Circuit/Bits/Swap.antt =====
-- `conditional_swap`: whatever the prover assigns, an accepted multiplexer returns the pair in the
-- order that the direction bit selects.
use provii_crypto.Prelude.{ℕ, ◌+◌, ◌*◌, ◌%◌, ◌≤◌, ◌≡◌, refl, sym, ap, ◌∙◌, arith, Bool, true, false}
use provii_crypto.Prelude.{
  List, [], ◌∷◌, ◌==◌, ==_iff, if◌then◌else◌, length, ok, Bool-cases, inl, inr,
}
use provii_crypto.Circuit.Backend.{
  Bellman, Boolean, same_residue, bits, on_ok, enforced, return_inj, ok-ne-err,
}
use provii_crypto.Prelude.Bytes.{to_ℕ}
use provii_crypto.Circuit.Bits.{select, swap_bit, swap_bits, conditional_swap}

mux_bits :
    (q : ℕ) (d u v w : Bool)
    → 8 ≤ q
    → (((0 + to_ℕ d * 1) * (0 + to_ℕ u * 1) + 0 * (0 + to_ℕ v * 1) + (0 + to_ℕ v * 1)) % q
        == ((0 + to_ℕ d * 1) * (0 + to_ℕ v * 1) + 0 * (0 + to_ℕ u * 1) + (0 + to_ℕ w * 1)) % q)
      ≡ true
    → w ≡ select d u v
mux_bits q d u v w large h = ground (
  arith,
  same_residue q ((0 + to_ℕ d * 1) * (0 + to_ℕ u * 1) + 0 * (0 + to_ℕ v * 1) + (0 + to_ℕ v * 1))
      ((0 + to_ℕ d * 1) * (0 + to_ℕ v * 1) + 0 * (0 + to_ℕ u * 1) + (0 + to_ℕ w * 1)),
)

select_cons :
    (d : Bool) (x : Bool) (xs : List Bool) (u v : Bool) (us vs : List Bool)
    → x ≡ select d u v
    → xs ≡ (if d then us else vs)
    → x ∷ xs ≡ (if d then u ∷ us else v ∷ vs)
select_cons true x xs u v us vs p q = cc
select_cons false x xs u v us vs p q = cc

module _ (B : Bellman) where
  open B use {System, is_satisfied, modulus, modulus_large}

  swap_bit_sound :
      (dir a b : Boolean) (s : System) {l r : Boolean} {t : System}
      → swap_bit B dir a b s ≡ ok ((l, r), t)
      → is_satisfied t ≡ true
      → (is_satisfied s ≡ true)
        × (l.bit ≡ select dir.bit a.bit b.bit)
        × (r.bit ≡ select dir.bit b.bit a.bit)
  unfolding swap_bit
  swap_bit_sound dir a b s h g = on_ok (B.alloc _ s) _ h λ l s1 e1 h1.
      on_ok (B.alloc _ _) _ h1 λ r s2 e2 h2.
        let (pair, last) = return_inj h2 in
        let (g2, right) = enforced B last g in
        let g1 = B.alloc_is_satisfied _ _ e2 g2 in
        let (g0, left) = enforced B refl g1 in
        (
          B.alloc_is_satisfied _ _ e1 g0,
          ap (λ p. p.0.bit) (sym pair)
              ∙ mux_bits modulus dir.bit a.bit b.bit l.bit modulus_large left,
          ap (λ p. p.1.bit) (sym pair)
              ∙ mux_bits modulus dir.bit b.bit a.bit r.bit modulus_large right,
        )

  swap_bits_sound :
      (dir : Boolean) (a b : List Boolean) (s : System) {l r : List Boolean} {t : System}
      → length a ≡ length b
      → swap_bits B dir a b s ≡ ok ((l, r), t)
      → is_satisfied t ≡ true
      → (is_satisfied s ≡ true)
        × (bits l ≡ (if dir.bit then bits a else bits b))
        × (bits r ≡ (if dir.bit then bits b else bits a))
  unfolding swap_bits
  swap_bits_sound dir [] [] s e h g = ground arith
  swap_bits_sound dir (x ∷ a) [] s e h g = absurd (omega arith)
  swap_bits_sound dir [] (y ∷ b) s e h g = absurd (omega arith)
  swap_bits_sound dir (x ∷ a) (y ∷ b) s e h g = on_ok (swap_bit B dir x y s) _ h λ p s1 e1 h1.
      on_ok (swap_bits B dir a b s1) _ h1 λ ps s2 e2 h2.
        let (pair, last) = return_inj h2 in
        let (g1, ls, rs) = swap_bits_sound dir a b s1 (omega arith) e2 (rw (← last) at g) in
        let (g0, l, r) = swap_bit_sound dir x y s e1 g1 in
        (
          g0,
          ap (λ q. bits q.0) (sym pair)
              ∙ select_cons dir.bit _ _ x.bit y.bit (bits a) (bits b) l ls,
          ap (λ q. bits q.1) (sym pair)
              ∙ select_cons dir.bit _ _ y.bit x.bit (bits b) (bits a) r rs,
        )

  -- An accepted `conditional_swap` had vectors of one length, and returns them in order for a set
  -- direction bit and exchanged for a clear one, whatever was assigned to its own bits.
  pub conditional_swap_sound :
      (dir : Boolean) (a b : List Boolean) (s : System) {l r : List Boolean} {t : System}
      → conditional_swap B dir a b s ≡ ok ((l, r), t)
      → is_satisfied t ≡ true
      → (is_satisfied s ≡ true)
        × (bits l ≡ (if dir.bit then bits a else bits b))
        × (bits r ≡ (if dir.bit then bits b else bits a))
        × (length a ≡ length b)
  unfolding conditional_swap
  conditional_swap_sound dir a b s h g = elim (Bool-cases (length a == length b)) [
    | inl p ↦
        let e = (==_iff _ _).0 p in
        let (g0, l, r) = swap_bits_sound dir a b s e (rw p at h) g in (g0, l, r, e)
    | inr p ↦ absurd (ok-ne-err (rw p at h))
  ]
