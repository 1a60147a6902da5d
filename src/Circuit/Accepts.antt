-- ===== src/Circuit/Accepts.antt =====
-- Soundness of a run: whenever the constraint system accepts afterwards, it accepted before and the
-- result has a property. The rules follow the `do` blocks of the gadgets.
use provii_crypto.Prelude.{
  ◌≡◌, refl, Bool, true, false, ok, err, Result, Option, some, none, List, length, sym, ap, ◌∙◌,
}
use provii_crypto.Circuit.Backend.{
  Bellman, Boolean, Synth, SynthesisError, Lc, holds, enforced, bits, return, fail, on_ok,
  return_inj, ok-ne-err, unsatisfiable, ◌>>=◌, ◌>>◌,
}
use mathlib.Core.Path.{subst}
use provii_crypto.Circuit.Bits.{require, enforce_that, equal_bits, enforce_bits_equal}
use provii_crypto.Circuit.Bits.Equal.{equal_bits_sound, enforce_bits_equal_sound}
use provii_crypto.Circuit.Alloc.{alloc_all}
use provii_crypto.Circuit.Alloc.Wires.{alloc_all_lem, length-get_values}

-- `ok_or(SynthesisError::Unsatisfiable)?`
abbrev pub or_unsatisfiable : {S A : Type 0} → Option A → Synth S A
or_unsatisfiable none = fail unsatisfiable
or_unsatisfiable (some a) = return a

-- A result that does not touch the system.
abbrev pub lift : {S A : Type 0} → Result SynthesisError A → Synth S A
lift (ok a) = return a
lift (err e) = fail e

module _ (B : Bellman) where
  open B use {System, is_satisfied}

  pub record Accepts {A : Type 0} (m : Synth System A) (P : A → Type 0) : Type 0 where
    pub on_run :
        (s : System) {a : A} {t : System}
        → m s ≡ ok (a, t)
        → is_satisfied t ≡ true
        → (is_satisfied s ≡ true) × P a

  -- What the first step establishes is a hypothesis of what the rest concludes.
  pub Accepts-bind :
      {A C : Type 0} (m : Synth System A) (f : A → Synth System C) (P : A → Type 0) {Q : C → Type 0}
      → Accepts m P
      → ((a : A) → Accepts (f a) (λ c. P a → Q c))
      → Accepts (m >>= f) Q
  Accepts-bind m f P {Q} first rest = record {
    on_run = λ s h g. on_ok (m s) f h λ a s1 e h1.
        let (g1, q) = (rest a).on_run s1 h1 g in let (g0, p) = first.on_run s e g1 in (g0, q p);
  }

  pub Accepts-return : {A : Type 0} (a : A) {Q : A → Type 0} → Q a → Accepts (return a) Q
  Accepts-return a {Q} q = record {
    on_run = λ s h g. let (e, e') = return_inj h in (rw e' g, subst Q e q);
  }

  -- The same property from another, at the end of a block.
  pub Accepts-map :
      {A : Type 0} {m : Synth System A} {P Q : A → Type 0}
      → Accepts m P
      → ((a : A) → P a → Q a)
      → Accepts m Q
  Accepts-map r k = record { on_run = λ s {a} h g. let (g0, p) = r.on_run s h g in (g0, k a p) }

  -- Behind a check, what it checks holds.
  pub Accepts-guarded :
      {A : Type 0} (b : Bool) (m : Synth System A) {Q : A → Type 0}
      → (b ≡ true → Accepts m Q)
      → Accepts (require b >> m) Q
  Accepts-guarded true m k = k refl
  Accepts-guarded false m k = record { on_run = λ s h g. absurd (ok-ne-err h) }

  pub Accepts-require : (b : Bool) → Accepts (require b) (λ _. b ≡ true)
  Accepts-require true = Accepts-return tt refl
  Accepts-require false = record { on_run = λ s h g. absurd (ok-ne-err h) }

  Accepts-fail : {A : Type 0} {Q : A → Type 0} → Accepts (fail {A = A} unsatisfiable) Q
  Accepts-fail = record { on_run = λ s h g. absurd (ok-ne-err h) }

  pub Accepts-or_unsatisfiable :
      {A : Type 0} (o : Option A) → Accepts (or_unsatisfiable o) (λ a. o ≡ some a)
  Accepts-or_unsatisfiable none = Accepts-fail
  Accepts-or_unsatisfiable (some a) = Accepts-return a refl

  pub Accepts-lift : {A : Type 0} (r : Result SynthesisError A) → Accepts (lift r) (λ a. r ≡ ok a)
  Accepts-lift (ok a) = Accepts-return a refl
  Accepts-lift (err e) = record { on_run = λ s h g. absurd (ok-ne-err h) }

  pub Accepts-enforce :
      (a b c : Lc) → Accepts (enforce_that B a b c) (λ _. holds B.modulus a b c ≡ true)
  Accepts-enforce a b c = record { on_run = λ s h g. enforced B (return_inj h).1 g }

  pub Accepts-equal_bits :
      (a b : List Boolean) → length a ≡ length b → Accepts (equal_bits B a b) (λ _. bits a ≡ bits b)
  Accepts-equal_bits a b e = record { on_run = λ s h g. equal_bits_sound B a b s e h g }

  pub Accepts-enforce_bits_equal :
      (a b : List Boolean) → Accepts (enforce_bits_equal B a b) (λ _. bits a ≡ bits b)
  Accepts-enforce_bits_equal a b = record { on_run = λ s h g. enforce_bits_equal_sound B a b s h g }

  pub Accepts-alloc_all :
      (values : List (Option Bool)) → Accepts (alloc_all B values) (λ w. length w ≡ length values)
  Accepts-alloc_all values = record {
    on_run = λ s {a} h g.
        let (same, back) = alloc_all_lem B values s h in
        (back g, sym (length-get_values a) ∙ ap length same);
  }
