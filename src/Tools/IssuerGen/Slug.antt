-- ===== src/Tools/IssuerGen/Slug.antt =====
-- The slug of an organization's name: what its characters are, and its ends.
use provii_crypto.Prelude.{
  ℕ, ◌≡◌, ◌≢◌, ◌⊎◌, inl, inr, refl, true, false, List, [], ◌∷◌, map, All, ◌==◌, arith, Bool-cases,
}
use provii_crypto.Tools.IssuerGen.{Unicode, trim_start, trim_end, keep_front, to_hyphen, org_slug}

-- A character of a slug.
abbrev pub IsSlugChar : Unicode → ℕ → Type 0
IsSlugChar U c = (U.is_alphanumeric c ≡ true) ⊎ (c ≡ b'-')

-- A text that does not begin, and one that does not end with a hyphen.
abbrev pub BeginsPlain : List ℕ → Type 0
BeginsPlain [] = Unit {0}
BeginsPlain (c ∷ cs) = c ≢ b'-'

abbrev pub EndsPlain : List ℕ → Type 0
EndsPlain [] = Unit {0}
EndsPlain (c ∷ []) = c ≢ b'-'
EndsPlain (c ∷ d ∷ cs) = EndsPlain (d ∷ cs)

to_hyphen-IsSlugChar : (U : Unicode) (c : ℕ) → IsSlugChar U (to_hyphen U c)
to_hyphen-IsSlugChar U c = elim (Bool-cases (U.is_alphanumeric c)) [
  | inl e ↦ rw e (inl e)
  | inr e ↦ rw e (elim (Bool-cases (c == b'-')) [
    | inl d ↦ rw d (inr (ground (arith, d)))
    | inr d ↦ rw d (inr refl)
  ])
]

map-All : (U : Unicode) (cs : List ℕ) → All (IsSlugChar U) (map (to_hyphen U) cs)
map-All U [] = tt
map-All U (c ∷ cs) = (to_hyphen-IsSlugChar U c, map-All U cs)

trim_start-All : (P : ℕ → Type 0) (cs : List ℕ) → All P cs → All P (trim_start cs)
unfolding trim_start
trim_start-All P [] h = tt
trim_start-All P (c ∷ cs) (h, hs) = elim (Bool-cases (c == b'-')) [
  | inl e ↦ rw e (trim_start-All P cs hs)
  | inr e ↦ rw e (h, hs)
]

plain : (c : ℕ) → (c == b'-') ≡ false → c ≢ b'-'
plain c e h = ground arith

trim_start-BeginsPlain : (cs : List ℕ) → BeginsPlain (trim_start cs)
unfolding trim_start
trim_start-BeginsPlain [] = tt
trim_start-BeginsPlain (c ∷ cs) = elim (Bool-cases (c == b'-')) [
  | inl e ↦ rw e (trim_start-BeginsPlain cs)
  | inr e ↦ rw e (plain c e)
]

keep_front-All : (P : ℕ → Type 0) (c : ℕ) (cs : List ℕ) → P c → All P cs → All P (keep_front c cs)
keep_front-All P c [] h hs = elim (Bool-cases (c == b'-')) [
  | inl e ↦ rw e tt
  | inr e ↦ rw e (h, tt)
]
keep_front-All P c (d ∷ cs) h hs = (h, hs)

trim_end-All : (P : ℕ → Type 0) (cs : List ℕ) → All P cs → All P (trim_end cs)
unfolding trim_end
trim_end-All P [] h = tt
trim_end-All P (c ∷ cs) (h, hs) = keep_front-All P c (trim_end cs) h (trim_end-All P cs hs)

keep_front-EndsPlain : (c : ℕ) (cs : List ℕ) → EndsPlain cs → EndsPlain (keep_front c cs)
keep_front-EndsPlain c [] h = elim (Bool-cases (c == b'-')) [
  | inl e ↦ rw e tt
  | inr e ↦ rw e (plain c e)
]
keep_front-EndsPlain c (d ∷ cs) h = h

trim_end-EndsPlain : (cs : List ℕ) → EndsPlain (trim_end cs)
unfolding trim_end
trim_end-EndsPlain [] = tt
trim_end-EndsPlain (c ∷ cs) = keep_front-EndsPlain c (trim_end cs) (trim_end-EndsPlain cs)

keep_front-BeginsPlain : (c : ℕ) (cs : List ℕ) → c ≢ b'-' → BeginsPlain (keep_front c cs)
keep_front-BeginsPlain c [] h = elim (Bool-cases (c == b'-')) [ inl e ↦ rw e tt | inr e ↦ rw e h ]
keep_front-BeginsPlain c (d ∷ cs) h = h

trim_end-BeginsPlain : (cs : List ℕ) → BeginsPlain cs → BeginsPlain (trim_end cs)
unfolding trim_end
trim_end-BeginsPlain [] h = tt
trim_end-BeginsPlain (c ∷ cs) h = keep_front-BeginsPlain c (trim_end cs) h

-- The slug of every name consists of alphanumeric characters and hyphens, and neither begins nor ends
-- with a hyphen.
pub org_slug-IsSlugChar :
    (U : Unicode) (name : List ℕ)
    → All (IsSlugChar U) (org_slug U name)
      × BeginsPlain (org_slug U name)
      × EndsPlain (org_slug U name)
unfolding org_slug
org_slug-IsSlugChar U name = (
  trim_end-All (IsSlugChar U) _ (trim_start-All (IsSlugChar U) _ (map-All U (U.to_lowercase name))),
  trim_end-BeginsPlain _ (trim_start-BeginsPlain (map (to_hyphen U) (U.to_lowercase name))),
  trim_end-EndsPlain _,
)
