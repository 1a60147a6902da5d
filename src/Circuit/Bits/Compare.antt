-- ===== src/Circuit/Bits/Compare.antt =====
-- `enforce_ge`: whatever the prover assigns to the borrow and difference bits, an accepted
-- comparison of two bit vectors means that the first number is at least the second.
use provii_crypto.Prelude.{ℕ, ◌+◌, ◌*◌, ◌%◌, ◌≤◌, ◌≡◌, sym, ap, ◌∙◌, arith}
use provii_crypto.Prelude.{
  Bool, true, false, not, ◌&&◌, ◌||◌, List, [], ◌∷◌, ◌==◌, ==_iff, length, ok,
}
use provii_crypto.Prelude.{Bool-cases, inl, inr}
use provii_crypto.Circuit.Backend.{
  Bellman, Boolean, same_residue, bits, on_ok, enforced, return_inj, ok-ne-err, constant,
}
use provii_crypto.Prelude.Bytes.{to_ℕ, value}
use provii_crypto.Circuit.Bits.{boolean_or, last_borrow, step_borrow, ge_rounds, enforce_ge}

borrow_bits :
    (q : ℕ) (a b c d n : Bool)
    → 8 ≤ q
    → (((0 + to_ℕ a * 1) * (0 + 1)
            + (0 + to_ℕ b * 1 + to_ℕ c * 1 + to_ℕ d * 1) * 0
            + (0 + to_ℕ n * 2))
          % q
        == ((0 + to_ℕ a * 1) * 0 + (0 + to_ℕ b * 1 + to_ℕ c * 1 + to_ℕ d * 1) * (0 + 1) + 0) % q)
      ≡ true
    → to_ℕ a + 2 * to_ℕ n ≡ to_ℕ b + to_ℕ c + to_ℕ d
borrow_bits q a b c d n large h = ground (
  arith,
  same_residue q
      ((0 + to_ℕ a * 1) * (0 + 1)
        + (0 + to_ℕ b * 1 + to_ℕ c * 1 + to_ℕ d * 1) * 0
        + (0 + to_ℕ n * 2))
      ((0 + to_ℕ a * 1) * 0 + (0 + to_ℕ b * 1 + to_ℕ c * 1 + to_ℕ d * 1) * (0 + 1) + 0),
)

zero_bit :
    (q : ℕ) (w : Bool)
    → 8 ≤ q
    → (((0 + to_ℕ w * 1) * (0 + 1) + 0 * 0 + 0) % q == ((0 + to_ℕ w * 1) * 0 + 0 * (0 + 1) + 0) % q)
      ≡ true
    → w ≡ false
zero_bit q w large h = ground (
  arith,
  same_residue q ((0 + to_ℕ w * 1) * (0 + 1) + 0 * 0 + 0) ((0 + to_ℕ w * 1) * 0 + 0 * (0 + 1) + 0),
)

no_borrow :
    (a b c x y z u w : Bool)
    → x ≡ (not a && b)
    → y ≡ (not a && c)
    → z ≡ (b && c)
    → u ≡ (x || y)
    → w ≡ (u || z)
    → w ≡ false
    → to_ℕ b + to_ℕ c ≤ to_ℕ a
no_borrow a b c x y z u w hx hy hz hu hw e = ground arith

module _ (B : Bellman) where
  open B use {System, is_satisfied, modulus, modulus_large}

  step_borrow_sound :
      (a b borrow : Boolean) (s : System) {n : Boolean} {t : System}
      → step_borrow B a b borrow s ≡ ok (n, t)
      → is_satisfied t ≡ true
      → (is_satisfied s ≡ true) × (to_ℕ b.bit + to_ℕ borrow.bit ≤ to_ℕ a.bit + 2 * to_ℕ n.bit)
  unfolding step_borrow
  step_borrow_sound a b borrow s h g = on_ok (B.alloc _ s) _ h λ n s1 e1 h1.
      on_ok (B.alloc _ s1) _ h1 λ d s2 e2 h2.
        let (same, last) = return_inj h2 in
        let (g2, sum) = enforced B last g in
        let g1 = B.alloc_is_satisfied _ _ e2 g2 in
        (
          B.alloc_is_satisfied _ _ e1 g1,
          rw (← same) (
              omega
                (arith, borrow_bits modulus a.bit b.bit borrow.bit d.bit n.bit modulus_large sum)),
        )

  boolean_or_sound :
      (x y : Boolean) (s : System) {z : Boolean} {t : System}
      → boolean_or B x y s ≡ ok (z, t)
      → is_satisfied t ≡ true
      → (is_satisfied s ≡ true) × (z.bit ≡ (x.bit || y.bit))
  unfolding boolean_or
  boolean_or_sound x y s h g = on_ok (B.and_wires _ _ s) _ h λ n s1 e1 h1.
      let (same, last) = return_inj h1 in
      let (conj, g0) = B.and_wires_sound _ _ _ e1 (rw (← last) at g) in
      (g0, ap (λ w. w.bit) (sym same) ∙ ground arith)

  last_borrow_sound :
      (a b borrow : Boolean) (s : System) {t : System}
      → last_borrow B a b borrow s ≡ ok (tt, t)
      → is_satisfied t ≡ true
      → (is_satisfied s ≡ true) × (to_ℕ b.bit + to_ℕ borrow.bit ≤ to_ℕ a.bit)
  unfolding last_borrow
  last_borrow_sound a b borrow s h g = on_ok (B.and_wires _ _ s) _ h λ x s1 e1 h1.
      on_ok (B.and_wires _ _ s1) _ h1 λ y s2 e2 h2. on_ok (B.and_wires _ _ s2) _ h2 λ z s3 e3 h3.
        on_ok (boolean_or B _ _ s3) _ h3 λ u s4 e4 h4.
          on_ok (boolean_or B _ _ s4) _ h4 λ w s5 e5 h5.
            let (g5, zero_final) = enforced B (return_inj h5).1 g in
            let (g4, or2) = boolean_or_sound _ _ _ e5 g5 in
            let (g3, or1) = boolean_or_sound _ _ _ e4 g4 in
            let (and3, g2) = B.and_wires_sound _ _ _ e3 g3 in
            let (and2, g1) = B.and_wires_sound _ _ _ e2 g2 in
            let (and1, g0) = B.and_wires_sound _ _ _ e1 g1 in
            (
              g0,
              no_borrow a.bit b.bit borrow.bit x.bit y.bit z.bit u.bit w.bit and1 and2 and3 or1 or2
                  (zero_bit modulus w.bit modulus_large zero_final),
            )

  ge_rounds_sound :
      (x : Boolean) (a : List Boolean) (y : Boolean) (b : List Boolean) (borrow : Boolean)
      (s : System) {t : System}
      → length a ≡ length b
      → ge_rounds B (x ∷ a) (y ∷ b) borrow s ≡ ok (tt, t)
      → is_satisfied t ≡ true
      → (is_satisfied s ≡ true) × (value (bits (y ∷ b)) + to_ℕ borrow.bit ≤ value (bits (x ∷ a)))
  unfolding ge_rounds
  ge_rounds_sound x [] y [] borrow s e h g =
      let (g0, le) = last_borrow_sound x y borrow s h g in (g0, omega arith)
  ge_rounds_sound x [] y (y' ∷ b) borrow s e h g = absurd (omega arith)
  ge_rounds_sound x (x' ∷ a) y [] borrow s e h g = absurd (omega arith)
  ge_rounds_sound x (x' ∷ a) y (y' ∷ b) borrow s e h g =
      on_ok (step_borrow B x y borrow s) _ h λ n s1 e1 h1.
        let (g1, rest) = ge_rounds_sound x' a y' b n s1 (omega arith) h1 g in
        let (g0, le) = step_borrow_sound x y borrow s e1 g1 in (g0, omega arith)

  rounds_value :
      (a b : List Boolean) (s : System) {t : System}
      → length a ≡ length b
      → ge_rounds B a b (constant false) s ≡ ok (tt, t)
      → is_satisfied t ≡ true
      → (is_satisfied s ≡ true) × (value (bits b) ≤ value (bits a))
  rounds_value [] [] s e h g = unfold ge_rounds in (rw ((return_inj h).1) g, omega arith)
  rounds_value [] (y ∷ b) s e h g = absurd (omega arith)
  rounds_value (x ∷ a) [] s e h g = absurd (omega arith)
  rounds_value (x ∷ a) (y ∷ b) s e h g =
      let (g0, le) = ge_rounds_sound x a y b (constant false) s (omega arith) h g in
      (g0, omega arith)

  -- An accepted `enforce_ge` had vectors of one length, and the number that the first spells is at
  -- least the number that the second spells, whatever was assigned to the borrow bits.
  pub enforce_ge_sound :
      (a b : List Boolean) (s : System) {t : System}
      → enforce_ge B a b s ≡ ok (tt, t)
      → is_satisfied t ≡ true
      → (is_satisfied s ≡ true) × (length a ≡ length b) × (value (bits b) ≤ value (bits a))
  unfolding enforce_ge
  enforce_ge_sound a b s h g = elim (Bool-cases (length a == length b)) [
    | inl p ↦
        let e = (==_iff _ _).0 p in let (g0, le) = rounds_value a b s e (rw p at h) g in (g0, e, le)
    | inr p ↦ absurd (ok-ne-err (rw p at h))
  ]
