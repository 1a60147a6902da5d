-- ===== src/Tools/IssuerGen/Policies.antt =====
-- The logo and the policies of a package: what the prompts that are asked again or checked leave.
use provii_crypto.Prelude.{
  ℕ, ◌≤◌, ◌≡◌, ◌⊎◌, inl, inr, refl, ◌||◌, ◌&&◌, Bool, true, List, [], ◌∷◌, arith, Bool-cases,
  Option, some, none,
}
use provii_crypto.Prelude.Bytes.{codes}
use provii_crypto.Signature.{RedJubjubError}
use mathlib.Core.Option.{some-injective}
use mathlib.Core.Option
use mathlib.Core.Path.{subst}
use provii_crypto.Tools.IssuerGen.Outcome.{
  Yields, Yields-bind, Yields-ask, no_max_validity_days, no_allow_revocation, no_rotation_days,
}
use provii_crypto.Tools.IssuerGen.{
  Answers, policies, ask, ask_rotation_days, checked_logo_url, starts_with, ends_with,
}

-- The interval that is asked for until it fits.
ask_rotation_days_le :
    (answers : List ℕ) (days : ℕ) → ask_rotation_days answers ≡ some days → days ≤ 365
unfolding ask_rotation_days
ask_rotation_days_le [] days e = cc
ask_rotation_days_le (a ∷ answers) days e = ground (arith, ask_rotation_days_le answers days)

-- An address that is kept is empty, or one over https of a picture.
abbrev pub IsLogo : List ℕ → Type 0
IsLogo url =
    (url ≡ [])
    ⊎ ((starts_with url (codes "https://") ≡ true)
        × ((ends_with url (codes ".png") || ends_with url (codes ".svg")) ≡ true))

both_true : (a b : Bool) → (a && b) ≡ true → (a ≡ true) × (b ≡ true)
both_true a b e = ground arith

pub checked_logo_url-IsLogo : (url : List ℕ) → IsLogo (checked_logo_url url)
unfolding checked_logo_url
checked_logo_url-IsLogo [] = inl refl
checked_logo_url-IsLogo (c ∷ cs) =
    elim (Bool-cases (
      starts_with (c ∷ cs) (codes "https://")
      && (ends_with (c ∷ cs) (codes ".png") || ends_with (c ∷ cs) (codes ".svg")))) [
        | inl e ↦ rw e (inr (both_true _ _ e))
        | inr e ↦ rw e (inl refl)
      ]

pub checked_none : (o : Option (List ℕ)) → Option.map checked_logo_url o ≡ none → o ≡ none
checked_none none e = refl
checked_none (some u) e = cc

pub checked_some :
    (o : Option (List ℕ)) (url : List ℕ) → Option.map checked_logo_url o ≡ some url → IsLogo url
checked_some none url e = absurd (cc)
checked_some (some u) url e = subst IsLogo (some-injective _ _ e) (checked_logo_url-IsLogo u)

abbrev pub Within : ℕ × Bool × ℕ → Type 0
Within q = q.2 ≤ 365

abbrev pub Any {α} : {A : Type α} → A → Type 0
Any _ = Unit {0}

pub policies-Yields :
    (Rare : RedJubjubError → Type 0) (answers : Option Answers)
    → Yields Rare answers Within (policies answers)
policies-Yields Rare answers =
    Yields-bind Rare answers Any Within (ask answers 365 (λ a. a.max_validity_days)) _
      (Yields-ask Rare Any answers _ _ (λ _. no_max_validity_days) tt λ _ _ _. tt)
      λ v _.
        Yields-bind Rare answers Any Within (ask answers true (λ a. a.allow_revocation)) _
          (Yields-ask Rare Any answers _ _ (λ _. no_allow_revocation) tt λ _ _ _. tt)
          λ r _.
            Yields-bind Rare answers (λ d. d ≤ 365) Within
              (ask answers 90 (λ a. ask_rotation_days a.rotation_days)) _
              (Yields-ask Rare (λ d. d ≤ 365) answers _ _ (λ _. no_rotation_days) (omega arith)
                λ a. ask_rotation_days_le a.rotation_days)
              λ d h. h
