-- ===== src/Tools/Keygen/Arguments.antt =====
-- The arguments of the key generator.
use provii_crypto.Prelude.{
  ℕ, arith, Bool, ◌≡◌, ◌↔◌, ◌⊎◌, inl, inr, refl, ◌||◌, true, false, List, [], ◌∷◌, Result, ok, err,
  if◌then◌else◌,
}
use provii_crypto.Prelude.Bytes.{codes, bytes_eq, bytes_eq_sound}
use provii_crypto.Tools.Keygen.{
  Request, generate, show_help, show_version, parse_args, asks_help, asks_version, asks_output,
  UsageError, missing_output_path, unknown_argument,
}

-- The arguments are pairs of an output option and a path, and the last path, or the default, is `f`.
abbrev pub Outputs : List (List ℕ) → List ℕ → List ℕ → Type 0
Outputs [] d f = d ≡ f
Outputs (arg ∷ []) d f = ⊥
Outputs (arg ∷ value ∷ rest) d f =
    ((arg ≡ codes "--output") ⊎ (arg ≡ codes "-o")) × Outputs rest value f

either_true : (a b : Bool) → (a || b) ≡ true → (a ≡ true) ⊎ (b ≡ true)
either_true a b e = ground arith

asks_output_sound :
    (arg : List ℕ) → asks_output arg ≡ true → (arg ≡ codes "--output") ⊎ (arg ≡ codes "-o")
asks_output_sound arg e =
    elim (either_true (bytes_eq arg (codes "--output")) (bytes_eq arg (codes "-o")) e) [
      | inl h ↦ inl (bytes_eq_sound arg (codes "--output") h)
      | inr h ↦ inr (bytes_eq_sound arg (codes "-o") h)
    ]

-- What the three tests say of an output option.
asks_output_complete :
    (arg : List ℕ)
    → (arg ≡ codes "--output") ⊎ (arg ≡ codes "-o")
    → (asks_help arg ≡ false) × (asks_version arg ≡ false) × (asks_output arg ≡ true)
asks_output_complete arg (inl e) = rw e (refl, refl, refl)
asks_output_complete arg (inr e) = rw e (refl, refl, refl)

abbrev Answer : Type 0
Answer = Result UsageError Request

-- An option is answered by keys only if it is an output option, and then by what follows it.
option_inverted :
    (help version output : Bool) (next : Answer) (u : UsageError) (f : List ℕ)
    → (if help
        then ok show_help
        else if version
        then ok show_version
        else if output
        then next
        else err u)
      ≡ ok (generate f)
    → (output ≡ true) × (next ≡ ok (generate f))
option_inverted true version output next u f h = cc
option_inverted false true output next u f h = cc
option_inverted false false true next u f h = (refl, h)
option_inverted false false false next u f h = cc

parse_generates :
    (args : List (List ℕ)) (d f : List ℕ) → parse_args args d ≡ ok (generate f) → Outputs args d f
unfolding parse_args
parse_generates [] d f e = cc
parse_generates (arg ∷ []) d f e = absurd (
    err-ne-ok
      (option_inverted (asks_help arg) (asks_version arg) (asks_output arg)
        (err missing_output_path) (unknown_argument arg) f e).1)
  where
    err-ne-ok : ◌≡◌ {A = Answer} (err missing_output_path) (ok (generate f)) → ⊥
    err-ne-ok h = cc
parse_generates (arg ∷ value ∷ rest) d f e =
    let (o, r) =
      option_inverted (asks_help arg) (asks_version arg) (asks_output arg) (parse_args rest value)
        (unknown_argument arg) f e in
    (asks_output_sound arg o, parse_generates rest value f r)

generates_parse :
    (args : List (List ℕ)) (d f : List ℕ) → Outputs args d f → parse_args args d ≡ ok (generate f)
unfolding parse_args
generates_parse [] d f h = rw h refl
generates_parse (arg ∷ []) d f h = absurd h
generates_parse (arg ∷ value ∷ rest) d f (o, h) =
    let (a, b, c) = asks_output_complete arg o in rw (a, b, c) (generates_parse rest value f h)

-- The arguments ask for keys in the file `f` exactly when they are pairs of `--output` or `-o` and a
-- path, and `f` is the last path, or the default where there is none.
pub parse_args_iff :
    (args : List (List ℕ)) (d f : List ℕ) → (parse_args args d ≡ ok (generate f)) ↔ Outputs args d f
parse_args_iff args d f = (parse_generates args d f, generates_parse args d f)
