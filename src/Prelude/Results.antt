-- ===== src/Prelude/Results.antt =====
-- Rust's `Result` with its `?` as a bind, `Option::ok_or` and `map_err`.
use mathlib.Core.Path.{◌≡◌, refl}
use mathlib.Core.Bool.{Bool, true, false}
use mathlib.Core.Logic.{◌⊎◌, inl, inr}
use mathlib.Core.Option.{Option, none, some}

pub data Result {ε α} (Err : Type ε) (Val : Type α) : Type (ε ⊔ α) where
  ok : Val → Result Err Val
  err : Err → Result Err Val

infixl 5 ◌>>=◌ ◌>>◌
abbrev pub ◌>>=◌ {ε α β} :
    {Err : Type ε} {Val : Type α} {Out : Type β}
    → Result Err Val
    → (Val → Result Err Out)
    → Result Err Out
ok a >>= next = next a
err e >>= next = err e

abbrev pub ◌>>◌ {ε α} :
    {Err : Type ε} {Out : Type α} → Result Err (Unit {0}) → Result Err Out → Result Err Out
m >> k = m >>= λ _. k

-- `if !test { return Err(e) }`
abbrev pub guard {ε} : {Err : Type ε} → Bool → Err → Result Err (Unit {0})
guard true e = ok tt
guard false e = err e

abbrev pub ok_or {ε α} : {Err : Type ε} {Val : Type α} → Option Val → Err → Result Err Val
ok_or none e = err e
ok_or (some a) e = ok a

-- `map_err(|_| e)`
abbrev pub map_err {ε α β} :
    {Err : Type ε} {F : Type α} {Val : Type β} → Result Err Val → F → Result F Val
map_err (ok a) e = ok a
map_err (err _) e = err e

module _ {ε α} {Err : Type ε} {Val : Type α} where
  pub ok-injective : {a b : Val} → ◌≡◌ {A = Result Err Val} (ok a) (ok b) → a ≡ b
  ok-injective h = cc

  pub Result-cases : (r : Result Err Val) → ((a : Val) × (r ≡ ok a)) ⊎ ((e : Err) × (r ≡ err e))
  Result-cases (ok a) = inl (a, refl)
  Result-cases (err e) = inr (e, refl)

-- Inversion of a successful bind.
pub >>=-eq-ok {ε α β} :
    {Err : Type ε} {Val : Type α} {Out : Type β} (m : Result Err Val) (next : Val → Result Err Out)
    {b : Out}
    → (m >>= next) ≡ ok b
    → (a : Val) × (m ≡ ok a) × (next a ≡ ok b)
>>=-eq-ok (ok a) next h = (a, refl, h)
>>=-eq-ok (err e) next h = cc

-- The same with a continuation, for the steps of a `do` block one after the other.
module _ {ε α β ν} {Err : Type ε} {Val : Type α} {Out : Type β} {C : Type ν} where
  pub on_bind :
      (m : Result Err Val) (next : Val → Result Err Out) {b : Out}
      → (m >>= next) ≡ ok b
      → ((a : Val) → m ≡ ok a → next a ≡ ok b → C)
      → C
  on_bind (ok a) next h k = k a refl h
  on_bind (err e) next h k = cc

  pub on_ok_or :
      (o : Option Val) (e : Err) (next : Val → Result Err Out) {b : Out}
      → (ok_or o e >>= next) ≡ ok b
      → ((a : Val) → o ≡ some a → next a ≡ ok b → C)
      → C
  on_ok_or none e next h k = cc
  on_ok_or (some a) e next h k = k a refl h

module _ {ε β ν} {Err : Type ε} {Out : Type β} {C : Type ν} where
  pub on_guard :
      (t : Bool) (e : Err) (next : Result Err Out) {b : Out}
      → (guard t e >> next) ≡ ok b
      → (t ≡ true → next ≡ ok b → C)
      → C
  on_guard true e next h k = k refl h
  on_guard false e next h k = cc

module _ {ε α β} {Err : Type ε} {F : Type α} {Val : Type β} where
  pub map_err-ok : (m : Result Err Val) (e : F) {a : Val} → map_err m e ≡ ok a → m ≡ ok a
  map_err-ok (ok a) e h = cc
  map_err-ok (err x) e h = cc
