-- ===== src/Tools/Tests.antt =====
-- The tools at concrete inputs.
use provii_crypto.Prelude.{
  ℕ, ◌≡◌, refl, arith, true, List, [], ◌∷◌, ◌++◌, some, none, Result, ok, err, All, ltb, ◌||◌, ◌&&◌,
  Bool-cases, inl, inr, if◌then◌else◌,
}
use provii_crypto.Prelude.Bytes.{codes, bytes_eq, bytes_eq_refl}
use provii_crypto.Signature.{}
use provii_crypto.Signature.Example.{group}
use provii_crypto.Tools.{Encoders, FileSystem}
use provii_crypto.Tools.Keygen.{default_output, run}
use provii_crypto.Tools.Keygen.Written.{secret_text, outcome, run_lem}
use provii_crypto.Tools.IssuerGen.{
  Unicode, Answers, Now, make_package, org_slug, checked_logo_url, ask_rotation_days, trim_start,
  trim_end,
}
use provii_crypto.Tools.IssuerGen.Slug.{IsSlugChar, BeginsPlain, EndsPlain, org_slug-IsSlugChar}
use provii_crypto.Tools.IssuerGen.Package.{Ends, make_package-Ends}

-- Encoders that keep the bytes, and one file that can always be written.
abbrev plain : Encoders
plain = record {
  hex = λ b. b;
  base64url = λ b. b;
  Json = List ℕ;
  text = λ b. b;
  boolean = λ b. [];
  number = λ n. n ∷ [];
  object = members;
  to_string = λ b. b;
}
  where
    members : List (List ℕ × List ℕ) → List ℕ
    members [] = []
    members ((name, value) ∷ rest) = name ++ (value ++ members rest)

mode_set :
    (held path : List ℕ) (mode other : ℕ)
    → ◌≡◌ {A = Result (Unit {0}) (Unit {0})} (if bytes_eq held path then ok tt else err tt) (ok tt)
    → (if bytes_eq held path then some (if bytes_eq held path then mode else other) else none)
      ≡ some mode
mode_set held path mode other e = elim (Bool-cases (bytes_eq held path)) [
  | inl h ↦ rw h refl
  | inr h ↦ absurd (err-ne-ok (rw h at e))
]
  where
    err-ne-ok : ◌≡◌ {A = Result (Unit {0}) (Unit {0})} (err tt) (ok tt) → ⊥
    err-ne-ok h = cc

-- The path, the content and the mode of the file.
abbrev one_file : FileSystem
one_file = record {
  is_unix = true;
  Files = List ℕ × List ℕ × ℕ;
  IoError = Unit {0};
  read = λ s path. if bytes_eq s.0 path then some s.1 else none;
  mode_of = λ s path. if bytes_eq s.0 path then some s.2 else none;
  write = λ s path content. ((path, content, 420), ok tt);
  set_permissions = λ s path mode. (
    (s.0, s.1, if bytes_eq s.0 path then mode else s.2),
    if bytes_eq s.0 path then ok tt else err tt,
  );
  write_reads = λ s path content e. rw (bytes_eq_refl path) refl;
  set_permissions_reads = λ s path mode e. (refl, mode_set s.0 path mode s.2 e);
}

abbrev month : List ℕ
month = codes "2026-11"

abbrev written : List ℕ
written = secret_text group plain one_file 5 month month (omega arith)

run_lem_example :
    let ran = run group plain one_file 5 month month ([], [], 0) default_output in
    (one_file.read ran.0 default_output ≡ some written)
    × (one_file.mode_of ran.0 default_output ≡ some 384)
    × (ran.1 ≡ outcome group plain one_file 5 month month (omega arith))
run_lem_example =
    run_lem group plain one_file 5 month month (omega arith) ([], [], 0) default_output refl refl

-- Lower-case Latin letters and digits.
abbrev latin : Unicode
latin = record {
  is_alphanumeric = λ c. ltb 96 c || (ltb 47 c && ltb c 58);
  to_lowercase = λ cs. cs;
  hyphen_not_alphanumeric = refl;
}

slug_run : org_slug latin (codes "-my issuer (uk)") ≡ codes "my-issuer--uk"
unfolding org_slug trim_start trim_end
slug_run = refl

org_slug-IsSlugChar_example :
    All (IsSlugChar latin) (org_slug latin (codes "-my issuer (uk)"))
    × BeginsPlain (org_slug latin (codes "-my issuer (uk)"))
    × EndsPlain (org_slug latin (codes "-my issuer (uk)"))
org_slug-IsSlugChar_example = org_slug-IsSlugChar latin (codes "-my issuer (uk)")

abbrev typed : Answers
typed = record {
  organization_name = some (codes "my issuer");
  domain = some (codes "issuer.example.com");
  logo_url = some (codes "http://logo.png");
  max_validity_days = some 365;
  allow_revocation = some true;
  rotation_days = 400 ∷ 30 ∷ [];
}

abbrev today : Now
today = record {
  timestamp = codes "20261126";
  date = codes "20261126";
  rfc3339 = codes "2026-11-26T00:00:00Z";
}

make_package-Ends_example :
    Ends group plain today refl 167 5 6
      (some typed)
      (make_package group plain latin (some typed) today 167 5 6)
make_package-Ends_example = make_package-Ends group plain today refl 167 5 6 latin (some typed)

http_logo : checked_logo_url (codes "http://logo.png") ≡ []
unfolding checked_logo_url
http_logo = refl

second_interval : ask_rotation_days (400 ∷ 30 ∷ []) ≡ some 30
unfolding ask_rotation_days
second_interval = refl
