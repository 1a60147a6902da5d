-- ===== src/Tools/IssuerGen.antt =====
-- tools/issuer-gen/src/main.rs: the package of an issuer's identity, its two key pairs and its
-- policies. Texts that the user types are characters by their code points; what the prompts return is
-- an argument.
pub mod Slug
pub mod Outcome
pub mod Policies
pub mod Package
use provii_crypto.Prelude.{
  ℕ, zero, suc, ◌+◌, ◌-◌, ◌/◌, ◌%◌, ◌≡◌, ◌||◌, ◌&&◌, not, Bool, true, false, List, [], ◌∷◌, ◌++◌,
  map, Option, some, none, Result, ok, err, if◌then◌else◌, ◌>>=◌, ok_or, guard, length, take, drop,
  ltb, ◌==◌,
}
use Prim.Native.String.{String}
use mathlib.Core.Option
use provii_crypto.Prelude.Bytes.{codes, bytes_eq}
use provii_crypto.Signature.Primitives.{Jubjub}
use provii_crypto.Signature.{RedJubjubError, generate_keypair_with_rng}
use provii_crypto.Tools.{Encoders, FileSystem, test_msg, sign_and_verify}

-- `char::is_alphanumeric` and `str::to_lowercase`, by Unicode's tables; a hyphen is no letter.
pub record Unicode : Type 0 where
  pub is_alphanumeric : ℕ → Bool
  pub to_lowercase : List ℕ → List ℕ
  pub hyphen_not_alphanumeric : is_alphanumeric b'-' ≡ false

-- `trim_matches('-')`: the hyphens in front, and those behind.
unfoldable pub trim_start : List ℕ → List ℕ
trim_start [] = []
trim_start (c ∷ cs) = let rest = trim_start cs in if c == b'-' then rest else c ∷ cs

-- A character in front of a text whose end is trimmed.
abbrev pub keep_front : ℕ → List ℕ → List ℕ
keep_front c [] = if c == b'-' then [] else c ∷ []
keep_front c (d ∷ rest) = c ∷ d ∷ rest

unfoldable pub trim_end : List ℕ → List ℕ
trim_end [] = []
trim_end (c ∷ cs) = keep_front c (trim_end cs)

abbrev pub trim_matches : List ℕ → List ℕ
trim_matches cs = trim_end (trim_start cs)

-- `replace(|c| !c.is_alphanumeric() && c != '-', "-")`
abbrev pub to_hyphen : Unicode → ℕ → ℕ
to_hyphen U c = if not (U.is_alphanumeric c) && not (c == b'-') then b'-' else c

unfoldable pub org_slug : Unicode → List ℕ → List ℕ
org_slug U name = trim_matches (map (to_hyphen U) (U.to_lowercase name))

abbrev pub starts_with : List ℕ → List ℕ → Bool
starts_with text prefix = bytes_eq (take (length prefix) text) prefix

abbrev pub ends_with : List ℕ → List ℕ → Bool
ends_with text suffix =
    not (ltb (length text) (length suffix))
    && bytes_eq (drop (length text - length suffix) text) suffix

-- The address that is kept of what the user types.
unfoldable pub checked_logo_url : List ℕ → List ℕ
checked_logo_url [] = []
checked_logo_url (c ∷ cs) =
    if starts_with (c ∷ cs) (codes "https://")
      && (ends_with (c ∷ cs) (codes ".png") || ends_with (c ∷ cs) (codes ".svg"))
    then c ∷ cs
    else []

-- The `loop` over the answers to "Key rotation interval": `none` when the prompt fails before it.
unfoldable pub ask_rotation_days : List ℕ → Option ℕ
ask_rotation_days [] = none
ask_rotation_days (days ∷ answers) =
    let rest = ask_rotation_days answers in if ltb 365 days then rest else some days

abbrev pub hex_digit : ℕ → ℕ
hex_digit d = if ltb d 10 then b'0' + d else (b'a' + (d - 10))

-- `{suffix:02x}` of a `u8`.
abbrev pub hex_byte : ℕ → List ℕ
hex_byte b = hex_digit (b / 16) ∷ hex_digit (b % 16) ∷ []

-- `format!("pr:{date_str}:{random_suffix:02x}")`, and with `sb`.
abbrev pub key_id : String → List ℕ → ℕ → List ℕ
key_id environment date suffix = codes environment ++ (b':' ∷ (date ++ (b':' ∷ hex_byte suffix)))

-- What the prompts return: `none` for an error, and for the last one, which may be asked again, the
-- answers before an error.
pub record Answers : Type 0 where
  pub organization_name : Option (List ℕ)
  pub domain : Option (List ℕ)
  pub logo_url : Option (List ℕ)
  pub max_validity_days : Option ℕ
  pub allow_revocation : Option Bool
  pub rotation_days : List ℕ

-- The texts of the current time where the tool asks for it: for the issuer's id, for the key ids, and
-- for the package.
pub record Now : Type 0 where
  pub timestamp : List ℕ
  pub date : List ℕ
  pub rfc3339 : List ℕ

pub record SigningKeyData : Type 0 where
  pub key_id : List ℕ
  pub private_key : List ℕ
  pub public_key : List ℕ
  pub key_type : List ℕ

-- `IssuerPackage`, but for its fixed instructions.
pub record IssuerPackage : Type 0 where
  pub generated_at : List ℕ
  pub generated_by : List ℕ
  pub issuer_kid : List ℕ
  pub organization_name : List ℕ
  pub domain : List ℕ
  pub logo_url : List ℕ
  pub signing_keys_production : SigningKeyData
  pub signing_keys_sandbox : SigningKeyData
  pub max_validity_days : ℕ
  pub allow_revocation : Bool
  pub key_rotation_days : ℕ

-- How a run ends early: the assertion on a key id, or `?` on a prompt or on a signature.
pub data PackageError : Type 0 where
  key_id_assertion prompt_failed : PackageError
  signature : RedJubjubError → PackageError

-- The default, or what a prompt returns.
abbrev pub ask {α} :
    {A : Type α} → Option Answers → A → (Answers → Option A) → Result PackageError A
ask none standard field = ok standard
ask (some answers) standard field = ok_or (field answers) prompt_failed

-- The policies: validity, revocation and rotation.
abbrev pub policies : Option Answers → Result PackageError (ℕ × Bool × ℕ)
policies answers = do
  max_validity_days ← ask answers 365 (λ a. a.max_validity_days)
  allow_revocation ← ask answers true (λ a. a.allow_revocation)
  key_rotation_days ← ask answers 90 (λ a. ask_rotation_days a.rotation_days)
  ok (max_validity_days, allow_revocation, key_rotation_days)

abbrev pub default_logo : List ℕ
default_logo = codes "https://cdn.provii.app/v1/logos/default.png"

module _ (J : Jubjub) (E : Encoders) where
  abbrev pub tested : Result RedJubjubError (Unit {0}) → Result PackageError (Unit {0})
  tested (ok _) = ok tt
  tested (err e) = err (signature e)

  -- The key pair of one environment: drawn, its id measured, and tested.
  unfoldable pub signing_keys : String → Now → ℕ → J.Scalar → Result PackageError SigningKeyData
  signing_keys environment now random_suffix drawn = do
    let keys = generate_keypair_with_rng J drawn
    let id = key_id environment now.date random_suffix
    _ ← guard (length id == 14) key_id_assertion
    _ ← tested (sign_and_verify J (test_msg id) keys)
    ok (record {
      key_id = id;
      private_key = E.base64url keys.0;
      public_key = E.base64url keys.1;
      key_type = codes "redjubjub";
    })

  -- `main` up to the package, with `none` for `--non-interactive`. Both key ids end in one random byte.
  unfoldable pub make_package :
      Unicode → Option Answers → Now → ℕ → J.Scalar → J.Scalar → Result PackageError IssuerPackage
  make_package U answers now random_suffix production sandbox = do
    organization_name ← ask answers (codes "Example Organization") (λ a. a.organization_name)
    domain ← ask answers (codes "issuer.example.com") (λ a. a.domain)
    logo_url ← ask answers default_logo (λ a. Option.map checked_logo_url a.logo_url)
    prod_keys ← signing_keys "pr" now random_suffix production
    sandbox_keys ← signing_keys "sb" now random_suffix sandbox
    policy ← policies answers
    ok (record {
      generated_at = now.rfc3339;
      generated_by = codes "issuer-gen v0.4.0";
      issuer_kid = org_slug U organization_name ++ (b'-' ∷ now.timestamp);
      organization_name = organization_name;
      domain = domain;
      logo_url = logo_url;
      signing_keys_production = prod_keys;
      signing_keys_sandbox = sandbox_keys;
      max_validity_days = policy.0;
      allow_revocation = policy.1;
      key_rotation_days = policy.2;
    })
