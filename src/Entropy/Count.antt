-- ===== src/Entropy/Count.antt =====
-- The loop counts the byte values that occur.
use provii_crypto.Prelude.{ℕ, zero, suc, ◌+◌, ◌≤◌, ◌<◌, ◌≡◌, ◌≢◌, ◌↔◌, refl, ap, sym, ◌∙◌, arith}
use provii_crypto.Prelude.{
  Bool, true, false, not, ◌&&◌, ◌||◌, List, [], ◌∷◌, ◌==◌, All, leb, Bool-cases, inl, inr,
}
use provii_crypto.Prelude.Bytes.{IsByte, to_ℕ}
use provii_crypto.Entropy.{Seen, mark, count_unique, has_enough_unique, saturating_suc}

abbrev pub contains : List ℕ → ℕ → Bool
contains [] v = false
contains (x ∷ xs) v = v == x || contains xs v

-- How many numbers below `n` pass a test.
unfoldable pub count_below : ℕ → (ℕ → Bool) → ℕ
count_below zero p = 0
count_below (suc n) p = to_ℕ (p n) + count_below n p

-- The number of byte values that occur in a string.
abbrev pub unique_bytes : List ℕ → ℕ
unique_bytes xs = count_below 256 (contains xs)

pub count_below_mono :
    (n : ℕ) (p q : ℕ → Bool)
    → ((v : ℕ) → p v ≡ true → q v ≡ true)
    → count_below n p ≤ count_below n q
unfolding count_below
count_below_mono zero p q h = omega arith
count_below_mono (suc n) p q h = ground (arith, h n, count_below_mono n p q h)

count_below-cong :
    (n : ℕ) (p q : ℕ → Bool) → ((v : ℕ) → p v ≡ q v) → count_below n p ≡ count_below n q
unfolding count_below
count_below-cong zero p q h = refl
count_below-cong (suc n) p q h = ground (arith, h n, count_below-cong n p q h)

pub count_below-le : (n : ℕ) (p : ℕ → Bool) → count_below n p ≤ n
unfolding count_below
count_below-le zero p = omega arith
count_below-le (suc n) p = ground (arith, count_below-le n p)

-- Tests that agree below `n`.
count_below-below :
    (n : ℕ) (p q : ℕ → Bool) → ((v : ℕ) → v < n → p v ≡ q v) → count_below n p ≡ count_below n q
unfolding count_below
count_below-below zero p q h = refl
count_below-below (suc n) p q h =
    ground (arith, h n (omega arith), count_below-below n p q (λ v l. h v (omega arith)))

-- Tests that differ at one number only.
count_below-one :
    (n x : ℕ) (p q : ℕ → Bool)
    → x < n
    → p x ≡ true
    → q x ≡ false
    → ((v : ℕ) → v ≢ x → p v ≡ q v)
    → count_below n p ≡ suc (count_below n q)
unfolding count_below
count_below-one zero x p q h px qx e = absurd (omega arith)
count_below-one (suc n) x p q h px qx e = elim (Bool-cases (n == x)) [
  | inl i ↦
      let n-x : n ≡ x = ground arith in
      let pn : p n ≡ true = ap p n-x ∙ px in
      let qn : q n ≡ false = ap q n-x ∙ qx in
      ground (arith, count_below-below n p q (λ v l. e v (λ r. omega arith)))
  | inr i ↦
      let ne : n ≢ x = λ r. ground arith in
      ground (arith, e n ne, count_below-one n x p q (ground arith) px qx e)
]

count_below-none : (n : ℕ) → count_below n (λ _. false) ≡ 0
unfolding count_below
count_below-none zero = refl
count_below-none (suc n) = omega (arith, count_below-none n)

abbrev pub fresh : List ℕ → Seen → ℕ → Bool
fresh xs seen v = contains xs v && not (seen v)

fresh-seen :
    (x : ℕ) (xs : List ℕ) (seen : Seen)
    → seen x ≡ true
    → (v : ℕ) → fresh (x ∷ xs) seen v ≡ fresh xs seen v
fresh-seen x xs seen h v = elim (Bool-cases (v == x)) [
  | inl i ↦ let e : seen v ≡ true = ap seen (ground arith) ∙ h in ground arith
  | inr i ↦ ground arith
]

skipped :
    (x : ℕ) (xs : List ℕ) (seen : Seen) (uniq : ℕ)
    → seen x ≡ true
    → count_unique (x ∷ xs) seen uniq ≡ count_unique xs seen uniq
unfolding count_unique
skipped x xs seen uniq s = rw (s, count_unique) refl

opened :
    (x : ℕ) (xs : List ℕ) (seen : Seen) (uniq : ℕ)
    → seen x ≡ false
    → count_unique (x ∷ xs) seen uniq ≡ count_unique xs (mark x seen) (saturating_suc uniq)
unfolding count_unique
opened x xs seen uniq s = rw (s, count_unique) refl

count_lem :
    (xs : List ℕ) (seen : Seen) (uniq : ℕ)
    → All IsByte xs
    → uniq + count_below 256 (fresh xs seen) ≤ 65535
    → count_unique xs seen uniq ≡ uniq + count_below 256 (fresh xs seen)
unfolding count_unique
count_lem [] seen uniq hx h = omega (arith, count_below-none 256)
count_lem (x ∷ xs) seen uniq (hx, hxs) h = elim (Bool-cases (seen x)) [
  | inl s ↦
      let c = count_below-cong 256 (fresh (x ∷ xs) seen) (fresh xs seen) (fresh-seen x xs seen s) in
      skipped x xs seen uniq s
      ∙ count_lem xs seen uniq hxs (omega arith)
      ∙ sym (ap (λ t. uniq + t) c)
  | inr s ↦
      let c : count_below 256 (fresh (x ∷ xs) seen)
          ≡ suc (count_below 256 (fresh xs (mark x seen))) =
        count_below-one 256 x _ _ hx (ground arith) (ground arith) (λ v ne. ground arith) in
      let sat : saturating_suc uniq ≡ suc uniq = omega arith in
      opened x xs seen uniq s
      ∙ ap (count_unique xs (mark x seen)) sat
      ∙ count_lem xs (mark x seen) (suc uniq) hxs (omega arith)
      ∙ omega arith
]

all_fresh : (xs : List ℕ) (v : ℕ) → fresh xs (λ _. false) v ≡ contains xs v
all_fresh xs v = ground arith

unique_lem : (xs : List ℕ) → All IsByte xs → count_unique xs (λ _. false) 0 ≡ unique_bytes xs
unique_lem xs hx =
    let e =
      count_lem xs (λ _. false) 0 hx (omega (arith, count_below-le 256 (fresh xs (λ _. false)))) in
    omega (arith, count_below-cong 256 (fresh xs (λ _. false)) (contains xs) (all_fresh xs))

-- The entropy check accepts a byte string exactly when at least eight byte values occur in it.
pub has_enough_unique_iff :
    (xs : List ℕ) → All IsByte xs → (has_enough_unique xs ≡ true) ↔ (8 ≤ unique_bytes xs)
unfolding has_enough_unique
has_enough_unique_iff xs hx = rw (unique_lem xs hx) (leb_iff (unique_bytes xs))
  where
    leb_iff : (n : ℕ) → (leb 8 n ≡ true) ↔ (8 ≤ n)
    leb_iff n = ground arith
