-- ===== src/Circuit/Backend/Interface.antt =====
-- bellman's documented behaviour: `Boolean`, `ConstraintSystem` and `Boolean::and`.
use provii_crypto.Prelude.{
  ℕ, ◌+◌, ◌*◌, ◌%◌, ◌≤◌, ◌<◌, ◌≡◌, refl, Bool, true, not, ◌&&◌, Option, some,
}
use provii_crypto.Prelude.{List, [], ◌∷◌, Result, ok, err, ◌==◌}
use provii_crypto.Prelude.Bytes.{to_ℕ}
use mathlib.Core.Option
use mathlib.Core.Path.{subst}
use native.Mathlib.Nat.{mod-eq_of_lt}
use native.Mathlib.Omega.{arith}

-- `bellman::SynthesisError`, of which the gadgets return `Unsatisfiable` themselves.
pub data SynthesisError : Type 0 where
  unsatisfiable other : SynthesisError

-- A `Boolean`: what `get_value` returns, and its value in the assignment that is checked.
pub record Boolean : Type 0 where
  pub get_value : Option Bool
  pub bit : Bool

abbrev pub constant : Bool → Boolean
constant b = record { get_value = some b; bit = b }

abbrev pub not_wire : Boolean → Boolean
not_wire x = record { get_value = Option.map not x.get_value; bit = not x.bit }

-- The assigned bits.
abbrev pub bits : List Boolean → List Bool
bits [] = []
bits (x ∷ xs) = x.bit ∷ bits xs

-- The value of a linear combination under the assignment: what was added and what was taken off.
pub record Lc : Type 0 where
  pub plus : ℕ
  pub minus : ℕ

abbrev pub zero_lc : Lc
zero_lc = record { plus = 0; minus = 0 }

-- `lc + &x.lc(CS::one(), k)`, `lc - &x.lc(CS::one(), k)`, and `lc + CS::one()`.
abbrev pub add_wire : Lc → Boolean → ℕ → Lc
add_wire l x k = record l { plus = l.plus + to_ℕ x.bit * k }

abbrev pub sub_wire : Lc → Boolean → ℕ → Lc
sub_wire l x k = record l { minus = l.minus + to_ℕ x.bit * k }

abbrev pub add_one : Lc → Lc
add_one l = record l { plus = l.plus + 1 }

-- `lc + num.get_variable()`, also with a constant coefficient of one, and `lc - num.get_variable()`.
abbrev pub add_num : Lc → ℕ → Lc
add_num l n = record l { plus = l.plus + n }

abbrev pub sub_num : Lc → ℕ → Lc
sub_num l n = record l { minus = l.minus + n }

-- A * B = C in the integers modulo `q`, subtractions moved to the other side.
abbrev pub holds : ℕ → Lc → Lc → Lc → Bool
holds q a b c =
    (a.plus * b.plus + a.minus * b.minus + c.minus) % q
    == (a.plus * b.minus + a.minus * b.plus + c.plus) % q

-- Residues of small numbers are the numbers.
pub same_residue : (q m n : ℕ) → m < q → n < q → ((m % q) == (n % q)) ≡ true → m ≡ n
same_residue q m n hm hn h = ground (arith, mod-eq_of_lt hm, mod-eq_of_lt hn)

-- A computation over a constraint system that may fail.
abbrev pub Synth : Type 0 → Type 0 → Type 0
Synth S A = S → Result SynthesisError (A × S)

abbrev pub bind_result :
    {S A B : Type 0}
    → Result SynthesisError (A × S)
    → (A → Synth S B)
    → Result SynthesisError (B × S)
bind_result (ok (a, s)) f = f a s
bind_result (err e) f = err e

infixl 5 ◌>>=◌ ◌>>◌
abbrev pub ◌>>=◌ : {S A B : Type 0} → Synth S A → (A → Synth S B) → Synth S B
◌>>=◌ m f s = bind_result (m s) f

abbrev pub ◌>>◌ : {S B : Type 0} → Synth S (Unit {0}) → Synth S B → Synth S B
m >> k = m >>= λ _. k

abbrev pub return : {S A : Type 0} → A → Synth S A
return a s = ok (a, s)

abbrev pub fail : {S A : Type 0} → SynthesisError → Synth S A
fail e s = err e

-- Inversion of a run that succeeds.
pub on_ok {ℓ} :
    {S A B : Type 0} {C : Type ℓ} (r : Result SynthesisError (A × S)) (f : A → Synth S B) {b : B}
    {u : S}
    → bind_result r f ≡ ok (b, u)
    → ((a : A) (t : S) → r ≡ ok (a, t) → f a t ≡ ok (b, u) → C)
    → C
on_ok (ok (a, s)) f h k = k a s refl h
on_ok (err e) f h k = cc

pub return_inj :
    {S A : Type 0} {a b : A} {s t : S}
    → ◌≡◌ {A = Result SynthesisError (A × S)} (ok (a, s)) (ok (b, t))
    → (a ≡ b) × (s ≡ t)
return_inj h = (cc, cc)

pub ok-ne-err :
    {A : Type 0} {x : SynthesisError} {a : A} → ◌≡◌ {A = Result SynthesisError A} (err x) (ok a) → ⊥
ok-ne-err h = cc

and_true : (x y : Bool) → (x && y) ≡ true → (x ≡ true) × (y ≡ true)
and_true x y h = ground arith

-- A constraint system with an assignment, over the scalar field of `modulus` elements.
pub record Bellman : Type 1 where
  pub System : Type 0
  pub modulus : ℕ
  -- All constraints so far hold.
  pub is_satisfied : System → Bool
  -- `AllocatedBit::alloc`, which constrains the new variable to 0 or 1.
  pub alloc : Option Bool → Synth System Boolean
  pub and_wires : Boolean → Boolean → Synth System Boolean
  pub enforce : Lc → Lc → Lc → System → System
  pub modulus_large : 8 ≤ modulus
  pub alloc_get_value :
      (v : Option Bool) (s : System) {x : Boolean} {t : System}
      → alloc v s ≡ ok (x, t)
      → x.get_value ≡ v
  pub alloc_is_satisfied :
      (v : Option Bool) (s : System) {x : Boolean} {t : System}
      → alloc v s ≡ ok (x, t)
      → is_satisfied t ≡ true
      → is_satisfied s ≡ true
  pub and_wires_sound :
      (x y : Boolean) (s : System) {z : Boolean} {t : System}
      → and_wires x y s ≡ ok (z, t)
      → is_satisfied t ≡ true
      → (z.bit ≡ (x.bit && y.bit)) × (is_satisfied s ≡ true)
  pub enforce_lem :
      (a b c : Lc) (s : System)
      → is_satisfied (enforce a b c s) ≡ (is_satisfied s && holds modulus a b c)

module _ (B : Bellman) where
  -- A constraint that an accepted system contains holds.
  pub enforced :
      {a b c : Lc} {s t : B.System}
      → B.enforce a b c s ≡ t
      → B.is_satisfied t ≡ true
      → (B.is_satisfied s ≡ true) × (holds B.modulus a b c ≡ true)
  enforced {a} {b} {c} {s} e h =
      and_true _ _ (subst (λ v. v ≡ true) (B.enforce_lem a b c s) (rw (← e) at h))

-- A wire whose value is known and is the one assigned.
abbrev pub known : Bool → Boolean
known = constant

-- The prover assigns the values that the gadgets compute: then allocation and `and` succeed, keep
-- the values, and add no constraint that fails.
pub record IsHonest (B : Bellman) : Type 0 where
  pub alloc_known :
      (v : Bool) (s : B.System)
      → (t : B.System) × (B.alloc (some v) s ≡ ok (known v, t))
        × (B.is_satisfied t ≡ B.is_satisfied s)
  pub and_known :
      (u v : Bool) (s : B.System)
      → (t : B.System) × (B.and_wires (known u) (known v) s ≡ ok (known (u && v), t))
        × (B.is_satisfied t ≡ B.is_satisfied s)
