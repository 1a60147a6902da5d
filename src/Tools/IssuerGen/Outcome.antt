-- ===== src/Tools/IssuerGen/Outcome.antt =====
-- How a run of the issuer tool may end early, and the steps that a run is made of.
use provii_crypto.Prelude.{◌≡◌, refl, Option, some, none, Result, ok, err, ◌>>=◌, ok_or}
use provii_crypto.Signature.{RedJubjubError}
use provii_crypto.Tools.IssuerGen.{
  Answers, PackageError, key_id_assertion, prompt_failed, signature, ask, ask_rotation_days,
}

-- One of the prompts failed; the last one before an interval that fits.
pub data FailedPrompt (a : Answers) : Type 0 where
  no_organization_name : a.organization_name ≡ none → FailedPrompt a
  no_domain : a.domain ≡ none → FailedPrompt a
  no_logo_url : a.logo_url ≡ none → FailedPrompt a
  no_max_validity_days : a.max_validity_days ≡ none → FailedPrompt a
  no_allow_revocation : a.allow_revocation ≡ none → FailedPrompt a
  no_rotation_days : ask_rotation_days a.rotation_days ≡ none → FailedPrompt a

-- `Rare` says which errors the signatures of the run may have.
module _ (Rare : RedJubjubError → Type 0) where
  -- The ways to end early.
  abbrev pub EndsEarly : Option Answers → PackageError → Type 0
  EndsEarly answers (signature e) = Rare e
  EndsEarly answers key_id_assertion = ⊥
  EndsEarly answers prompt_failed = (a : Answers) × (answers ≡ some a) × FailedPrompt a

  -- A step gives a value with a property or ends the run in one of these ways.
  abbrev pub Yields : {A : Type 0} → Option Answers → (A → Type 0) → Result PackageError A → Type 0
  Yields answers Q (ok a) = Q a
  Yields answers Q (err e) = EndsEarly answers e

  module _ (answers : Option Answers) {A B : Type 0} (Q : A → Type 0) (R : B → Type 0) where
    pub Yields-bind :
        (m : Result PackageError A) (k : A → Result PackageError B)
        → Yields answers Q m
        → ((a : A) → Q a → Yields answers R (k a))
        → Yields answers R (m >>= k)
    Yields-bind (ok a) k q next = next a q
    Yields-bind (err e) k q next = q

  module _ {A : Type 0} (Q : A → Type 0) where
    answered :
        (a : Answers) (o : Option A)
        → (o ≡ none → FailedPrompt a)
        → ((x : A) → o ≡ some x → Q x)
        → Yields (some a) Q (ok_or o prompt_failed)
    answered a none failed q = (a, refl, failed refl)
    answered a (some x) failed q = q x refl

    pub Yields-ask :
        (answers : Option Answers) (standard : A) (field : Answers → Option A)
        → ((a : Answers) → field a ≡ none → FailedPrompt a)
        → Q standard
        → ((a : Answers) (x : A) → field a ≡ some x → Q x)
        → Yields answers Q (ask answers standard field)
    Yields-ask none standard field failed s q = s
    Yields-ask (some a) standard field failed s q = answered a (field a) (failed a) (q a)
