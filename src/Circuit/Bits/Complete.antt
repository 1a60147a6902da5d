-- ===== src/Circuit/Bits/Complete.antt =====
-- Completeness of the gadgets: with the values that the gadgets themselves compute, the honest
-- prover's system accepts whenever the statement holds, and no gadget fails.
use provii_crypto.Prelude.{ℕ, suc, ◌+◌, ◌*◌, ◌%◌, ◌≤◌, ◌≡◌, refl, ap, ◌∙◌, arith}
use provii_crypto.Prelude.{
  Bool, true, false, not, ◌&&◌, ◌||◌, List, [], ◌∷◌, ◌==◌, ==_refl, length, ok,
}
use provii_crypto.Prelude.{Result, map, if◌then◌else◌}
use provii_crypto.Circuit.Backend.{
  Bellman, constant, known, IsHonest, Synth, SynthesisError, bind_result, Lc, holds, zero_lc,
  add_wire, sub_wire, add_one,
}
use provii_crypto.Prelude.Bytes.{to_ℕ, value}
use provii_crypto.Circuit.Bits.{
  boolean_or, last_borrow, step_borrow, ge_rounds, enforce_ge, next_borrow_bit, diff_bit, select,
  swap_bit, swap_bits, conditional_swap,
}

same_number : (q m n : ℕ) → m ≡ n → ((m % q) == (n % q)) ≡ true
same_number q m n e = rw e (==_refl (n % q))

pub length-known : (us : List Bool) → length (map known us) ≡ length us
length-known [] = refl
length-known (u ∷ us) = ap suc (length-known us)

same_length :
    (us vs : List Bool)
    → length us ≡ length vs
    → (length (map known us) == length (map known vs)) ≡ true
same_length us vs e = ground (arith, length-known us, length-known vs)

module _ (B : Bellman) where
  open B use {System, is_satisfied, alloc, and_wires, enforce, modulus}

  -- The run returns `a` and leaves the system as satisfied as it was.
  abbrev pub Returns : {A : Type 0} → Result SynthesisError (A × System) → System → A → Type 0
  Returns r s a = (t : System) × (r ≡ ok (a, t)) × (is_satisfied t ≡ is_satisfied s)

  pub Returns-bind :
      {A C : Type 0} (r : Result SynthesisError (A × System)) (f : A → Synth System C) (s : System)
      (a : A) (c : C)
      → Returns r s a
      → ((t : System) → Returns (f a t) t c)
      → Returns (bind_result r f) s c
  Returns-bind r f s a c (t, e, q) k = let (u, e', q') = k t in (u, rw e e', q' ∙ q)

  -- A constraint that holds leaves the system as it was.
  Returns-enforce :
      {A : Type 0} (r : Result SynthesisError (A × System)) (a b c : Lc) (s : System) (x : A)
      → holds modulus a b c ≡ true
      → Returns r (enforce a b c s) x
      → Returns r s x
  Returns-enforce r a b c s x h (t, e, q) = (t, e, q ∙ B.enforce_lem a b c s ∙ rw h (and_true _))
    where
      and_true : (x : Bool) → (x && true) ≡ x
      and_true x = ground arith

module _ (B : Bellman) (H : IsHonest B) where
  open B use {System, is_satisfied, alloc, and_wires, enforce, modulus}

  step_borrow-known :
      (u v c : Bool) (s : System)
      → Returns B (step_borrow B (known u) (known v) (known c) s) s (known (next_borrow_bit u v c))
  unfolding step_borrow
  step_borrow-known u v c s =
      Returns-bind B _ _ s _ _ (H.alloc_known (next_borrow_bit u v c) s) λ s1.
        Returns-bind B _ _ s1 _ _ (H.alloc_known (diff_bit u v c) s1) λ s2.
          Returns-enforce B _
            (sub_wire (sub_wire (sub_wire (add_wire zero_lc (known u) 1) (known v) 1) (known c) 1)
              (known (diff_bit u v c)) 1)
            (add_one zero_lc) (sub_wire zero_lc (known (next_borrow_bit u v c)) 2) s2 _
            (same_number modulus _ _ (step_sum u v c)) (_, refl, refl)
    where
      step_sum :
          (u v c : Bool)
          → (0 + to_ℕ u * 1) * (0 + 1)
              + (0 + to_ℕ v * 1 + to_ℕ c * 1 + to_ℕ (diff_bit u v c) * 1) * 0
              + (0 + to_ℕ (next_borrow_bit u v c) * 2)
            ≡ (0 + to_ℕ u * 1) * 0
              + (0 + to_ℕ v * 1 + to_ℕ c * 1 + to_ℕ (diff_bit u v c) * 1) * (0 + 1)
              + 0
      step_sum u v c = ground arith

  boolean_or-known :
      (u v : Bool) (s : System) → Returns B (boolean_or B (known u) (known v) s) s (known (u || v))
  unfolding boolean_or
  boolean_or-known u v s =
      Returns-bind B _ _ s _ _ (H.and_known (not u) (not v) s)
        λ t. (t, ap (λ w. ok (known w, t)) (de_morgan u v), refl)
    where
      de_morgan : (u v : Bool) → not (not u && not v) ≡ (u || v)
      de_morgan u v = ground arith

  -- The value that `last_borrow` constrains to 0.
  abbrev final_bit : Bool → Bool → Bool → Bool
  final_bit u v c = ((not u && v) || (not u && c)) || (v && c)

  last_borrow-known :
      (u v c : Bool) (s : System)
      → to_ℕ v + to_ℕ c ≤ to_ℕ u
      → Returns B (last_borrow B (known u) (known v) (known c) s) s tt
  unfolding last_borrow
  last_borrow-known u v c s h = Returns-bind B _ _ s _ _ (H.and_known (not u) v s) λ s1.
      Returns-bind B _ _ s1 _ _ (H.and_known (not u) c s1) λ s2.
        Returns-bind B _ _ s2 _ _ (H.and_known v c s2) λ s3.
          Returns-bind B _ _ s3 _ _ (boolean_or-known _ _ s3) λ s4.
            Returns-bind B _ _ s4 _ _ (boolean_or-known _ _ s4) λ s5.
              Returns-enforce B _ (add_wire zero_lc (known (final_bit u v c)) 1) (add_one zero_lc)
                zero_lc s5 _ (same_number modulus _ _ (final_sum u v c h)) (_, refl, refl)
    where
      final_sum :
          (u v c : Bool)
          → to_ℕ v + to_ℕ c ≤ to_ℕ u
          → (0 + to_ℕ (final_bit u v c) * 1) * (0 + 1) + 0 * 0 + 0
            ≡ (0 + to_ℕ (final_bit u v c) * 1) * 0 + 0 * (0 + 1) + 0
      final_sum u v c h = ground arith

  borrow_down :
      (u v c : Bool) (m n : ℕ)
      → to_ℕ v + 2 * n + to_ℕ c ≤ to_ℕ u + 2 * m
      → n + to_ℕ (next_borrow_bit u v c) ≤ m
  borrow_down u v c m n h = ground arith

  ge_rounds-known :
      (u : Bool) (us : List Bool) (v : Bool) (vs : List Bool) (c : Bool) (s : System)
      → length us ≡ length vs
      → value (v ∷ vs) + to_ℕ c ≤ value (u ∷ us)
      → Returns B (ge_rounds B (map known (u ∷ us)) (map known (v ∷ vs)) (known c) s) s tt
  unfolding ge_rounds
  ge_rounds-known u [] v [] c s e h = last_borrow-known u v c s (omega arith)
  ge_rounds-known u [] v (v' ∷ vs) c s e h = absurd (omega arith)
  ge_rounds-known u (u' ∷ us) v [] c s e h = absurd (omega arith)
  ge_rounds-known u (u' ∷ us) v (v' ∷ vs) c s e h =
      Returns-bind B _ _ s _ _ (step_borrow-known u v c s) λ t.
        ge_rounds-known u' us v' vs (next_borrow_bit u v c) t (omega arith)
          (borrow_down u v c (value (u' ∷ us)) (value (v' ∷ vs)) (omega arith))

  rounds_known :
      (us vs : List Bool) (s : System)
      → length us ≡ length vs
      → value vs ≤ value us
      → Returns B (ge_rounds B (map known us) (map known vs) (constant false) s) s tt
  rounds_known [] [] s e h = unfold ge_rounds in (s, refl, refl)
  rounds_known [] (v ∷ vs) s e h = absurd (omega arith)
  rounds_known (u ∷ us) [] s e h = absurd (omega arith)
  rounds_known (u ∷ us) (v ∷ vs) s e h =
      ge_rounds-known u us v vs false s (omega arith) (omega arith)

  -- The honest prover can show every true comparison: on vectors of one length whose first number
  -- is at least the second, `enforce_ge` succeeds and keeps the system satisfied.
  pub enforce_ge_complete :
      (us vs : List Bool) (s : System)
      → length us ≡ length vs
      → value vs ≤ value us
      → Returns B (enforce_ge B (map known us) (map known vs) s) s tt
  unfolding enforce_ge
  enforce_ge_complete us vs s e h = rw (same_length us vs e) (rounds_known us vs s e h)

  swap_bit-known :
      (d u v : Bool) (s : System)
      → Returns B
          (swap_bit B (known d) (known u) (known v) s)
          s
          (known (select d u v), known (select d v u))
  unfolding swap_bit
  swap_bit-known d u v s = Returns-bind B _ _ s _ _ (H.alloc_known (select d u v) s) λ s1.
      Returns-enforce B _ (add_wire zero_lc (known d) 1)
        (sub_wire (add_wire zero_lc (known u) 1) (known v) 1)
        (sub_wire (add_wire zero_lc (known (select d u v)) 1) (known v) 1) s1 _
        (same_number modulus _ _ (mux_sum d u v))
        (Returns-bind B _ _ _ _ _ (H.alloc_known (select d v u) _) λ s2.
          Returns-enforce B _ (add_wire zero_lc (known d) 1)
            (sub_wire (add_wire zero_lc (known v) 1) (known u) 1)
            (sub_wire (add_wire zero_lc (known (select d v u)) 1) (known u) 1) s2 _
            (same_number modulus _ _ (mux_sum d v u)) (_, refl, refl))
    where
      mux_sum :
          (d u v : Bool)
          → (0 + to_ℕ d * 1) * (0 + to_ℕ u * 1) + 0 * (0 + to_ℕ v * 1) + (0 + to_ℕ v * 1)
            ≡ (0 + to_ℕ d * 1) * (0 + to_ℕ v * 1)
              + 0 * (0 + to_ℕ u * 1)
              + (0 + to_ℕ (select d u v) * 1)
      mux_sum d u v = ground arith

  swap_bits-known :
      (d : Bool) (us vs : List Bool) (s : System)
      → length us ≡ length vs
      → Returns B
          (swap_bits B (known d) (map known us) (map known vs) s)
          s
          (map known (if d then us else vs), map known (if d then vs else us))
  unfolding swap_bits
  swap_bits-known true [] [] s e = (s, refl, refl)
  swap_bits-known false [] [] s e = (s, refl, refl)
  swap_bits-known d (u ∷ us) [] s e = absurd (omega arith)
  swap_bits-known d [] (v ∷ vs) s e = absurd (omega arith)
  swap_bits-known true (u ∷ us) (v ∷ vs) s e =
      Returns-bind B _ _ s _ _ (swap_bit-known true u v s) λ t.
        Returns-bind B _ _ t _ _ (swap_bits-known true us vs t (omega arith)) λ t'. (t', refl, refl)
  swap_bits-known false (u ∷ us) (v ∷ vs) s e =
      Returns-bind B _ _ s _ _ (swap_bit-known false u v s) λ t.
        Returns-bind B _ _ t _ _ (swap_bits-known false us vs t (omega arith))
          λ t'. (t', refl, refl)

  -- The honest prover can always select: on vectors of one length `conditional_swap` succeeds,
  -- keeps the system satisfied and returns the vectors in the selected order.
  pub conditional_swap_complete :
      (d : Bool) (us vs : List Bool) (s : System)
      → length us ≡ length vs
      → Returns B
          (conditional_swap B (known d) (map known us) (map known vs) s)
          s
          (map known (if d then us else vs), map known (if d then vs else us))
  unfolding conditional_swap
  conditional_swap_complete d us vs s e = rw (same_length us vs e) (swap_bits-known d us vs s e)
