-- ===== src/Circuit/Runs.antt =====
-- An honest prover's run, from any system: it returns a value and leaves the system as satisfied as it
-- was. The rules follow the `do` blocks of the gadgets, beside those of Circuit/Accepts.
use provii_crypto.Prelude.{
  ◌+◌, ◌*◌, ◌≡◌, refl, ◌∙◌, arith, Bool, true, false, ◌&&◌, List, [], ◌∷◌, Option, some, ok, Result,
  length, map, ◌==◌, ==_refl,
}
use provii_crypto.Prelude.Bytes.{to_ℕ}
use provii_crypto.Circuit.Backend.{
  Bellman, Synth, SynthesisError, Lc, holds, known, zero_lc, add_one, add_wire, return, ◌>>=◌, ◌>>◌,
}
use provii_crypto.Circuit.Bits.{require, enforce_that, equal_bits, enforce_bits_equal}
use provii_crypto.Circuit.Bits.Complete.{Returns, Returns-bind}
use provii_crypto.Circuit.Accepts.{or_unsatisfiable, lift}

module _ (B : Bellman) where
  pub record Runs {A : Type 0} (m : Synth B.System A) (a : A) : Type 0 where
    pub on_run : (s : B.System) → Returns B (m s) s a

  pub Runs-bind :
      {A C : Type 0} (m : Synth B.System A) (f : A → Synth B.System C) (a : A) (c : C)
      → Runs m a
      → Runs (f a) c
      → Runs (m >>= f) c
  Runs-bind m f a c first rest = record {
    on_run = λ s. Returns-bind B (m s) f s a c (first.on_run s) rest.on_run;
  }

  pub Runs-then :
      {C : Type 0} (m : Synth B.System (Unit {0})) (k : Synth B.System C) (c : C)
      → Runs m tt
      → Runs k c
      → Runs (m >> k) c
  Runs-then m k c first rest = Runs-bind m (λ _. k) tt c first rest

  pub Runs-return : {A : Type 0} (a : A) → Runs (return a) a
  Runs-return a = record { on_run = λ s. (s, refl, refl) }

  pub Runs-guarded :
      {A : Type 0} (b : Bool) (m : Synth B.System A) (a : A)
      → b ≡ true
      → Runs m a
      → Runs (require b >> m) a
  Runs-guarded true m a e r = r
  Runs-guarded false m a e r = absurd (cc)

  pub Runs-require : (b : Bool) → b ≡ true → Runs (require b) tt
  Runs-require true e = Runs-return tt
  Runs-require false e = absurd (cc)

  pub Runs-or_unsatisfiable :
      {A : Type 0} (o : Option A) (a : A) → o ≡ some a → Runs (or_unsatisfiable o) a
  Runs-or_unsatisfiable o a e = rw e (Runs-return a)

  pub Runs-lift : {A : Type 0} (r : Result SynthesisError A) (a : A) → r ≡ ok a → Runs (lift r) a
  Runs-lift r a e = rw e (Runs-return a)

  pub Runs-enforce : (a b c : Lc) → holds B.modulus a b c ≡ true → Runs (enforce_that B a b c) tt
  Runs-enforce a b c h = record {
    on_run =
        λ s. (B.enforce a b c s, refl, B.enforce_lem a b c s ∙ rw h (and_true (B.is_satisfied s)));
  }
    where
      and_true : (x : Bool) → (x && true) ≡ x
      and_true x = ground arith

  same_wire :
      (u : Bool)
      → holds B.modulus
          (add_wire zero_lc (known u) 1)
          (add_one zero_lc)
          (add_wire zero_lc (known u) 1)
        ≡ true
  same_wire u = rw (both u) (==_refl _)
    where
      both :
          (u : Bool)
          → (0 + to_ℕ u * 1) * (0 + 1) + 0 * 0 + 0
            ≡ (0 + to_ℕ u * 1) * 0 + 0 * (0 + 1) + (0 + to_ℕ u * 1)
      both u = ground arith

  pub equal_bits-known : (us : List Bool) → Runs (equal_bits B (map known us) (map known us)) tt
  unfolding equal_bits
  equal_bits-known [] = Runs-return tt
  equal_bits-known (u ∷ us) =
      let l = add_wire zero_lc (known u) 1 in
      Runs-then (enforce_that B l (add_one zero_lc) l) (equal_bits B (map known us) (map known us))
        tt (Runs-enforce l (add_one zero_lc) l (same_wire u)) (equal_bits-known us)

  pub enforce_bits_equal-known :
      (us : List Bool) → Runs (enforce_bits_equal B (map known us) (map known us)) tt
  unfolding enforce_bits_equal
  enforce_bits_equal-known us =
      Runs-guarded (length (map known us) == length (map known us)) _ tt (==_refl _)
        (equal_bits-known us)
