-- ===== src/Commons/Civil/Eras.antt =====
-- The years of an era of 146097 days: every day of the era lies in the year that `yoe` names, and
-- the year after it begins where it ends. Years begin on March 1st, so the leap day ends a year.
use provii_crypto.Prelude.{
  ℕ, suc, ◌+◌, ◌-◌, ◌*◌, ◌/◌, ◌%◌, ◌≤◌, ◌<◌, ◌≡◌, ◌≢◌, ◌⊎◌, inl, inr, arith,
}
use native.Mathlib.Decide.{dec_lt}
use provii_crypto.Prelude.{Bool-cases, if◌then◌else◌, Bool, true}
use provii_crypto.Commons.Civil.{year_of_era}
use provii_crypto.Commons.Civil.Calendar.{leap_rule}

-- The days before year `y` of an era, and its length: a leap day in the calendar year `y + 1` ends it.
abbrev pub year_start : ℕ → ℕ
year_start y = 365 * y + y / 4 - y / 100

abbrev pub ends_leap : ℕ → Bool
ends_leap y = leap_rule (suc y % 4) (suc y % 100) (suc y % 400)

abbrev pub year_length : ℕ → ℕ
year_length y = if ends_leap y then 366 else 365

pub record IsYearOf (doe yoe : ℕ) : Type 0 where
  pub year_in : yoe < 400
  pub begun : year_start yoe ≤ doe
  pub not_over : doe < year_start yoe + year_length yoe

year_of_era_lt : (doe : ℕ) → doe < 146_097 → year_of_era doe < 400
unfolding year_of_era
year_of_era_lt doe h = omega arith

year_begun : (doe : ℕ) → doe < 146_097 → year_start (year_of_era doe) ≤ doe
unfolding year_of_era
year_begun doe h = omega arith

year_not_over : (doe : ℕ) → doe < 146_097 → doe < year_start (year_of_era doe) + 366
unfolding year_of_era
year_not_over doe h = omega arith

ends_leap_4 :
    (doe : ℕ)
    → doe < 146_097
    → doe ≡ year_start (year_of_era doe) + 365
    → suc (year_of_era doe) % 4 ≡ 0
unfolding year_of_era
ends_leap_4 doe h e = omega arith

ends_leap_100 :
    (doe : ℕ)
    → doe < 146_097
    → doe ≡ year_start (year_of_era doe) + 365
    → (suc (year_of_era doe) % 100 ≢ 0) ⊎ (suc (year_of_era doe) % 400 ≡ 0)
unfolding year_of_era
ends_leap_100 doe h e = omega arith

leap_rule-true : (a b c : ℕ) → a ≡ 0 → (b ≢ 0) ⊎ (c ≡ 0) → leap_rule a b c ≡ true
leap_rule-true a b c h k = ground arith

within_year :
    (doe : ℕ) → doe < 146_097 → doe < year_start (year_of_era doe) + year_length (year_of_era doe)
within_year doe h = elim (dec_lt doe (year_start (year_of_era doe) + 365)) [
  | yes p ↦ elim (Bool-cases (ends_leap (year_of_era doe))) [
    | inl l ↦ rw l (omega arith)
    | inr l ↦ rw l p
  ]
  | no p ↦
      let e : doe ≡ year_start (year_of_era doe) + 365 = omega (arith, year_not_over doe h) in
      rw (leap_rule-true _ _ _ (ends_leap_4 doe h e) (ends_leap_100 doe h e)) (year_not_over doe h)
]

pub year_of_era-IsYearOf : (doe : ℕ) → doe < 146_097 → IsYearOf doe (year_of_era doe)
year_of_era-IsYearOf doe h = record {
  year_in = year_of_era_lt doe h;
  begun = year_begun doe h;
  not_over = within_year doe h;
}

-- The next year begins where the year ends, and the last one ends the era.
pub year_start-suc : (k : ℕ) → k < 399 → year_start (suc k) ≡ year_start k + year_length k
year_start-suc k h = ground arith

pub year_length_le : (k : ℕ) → year_length k ≤ 366
year_length_le k = ground arith

pub year_length_ge : (k : ℕ) → 365 ≤ year_length k
year_length_ge k = ground arith

pub year_starts_mono : (a b : ℕ) → a < b → b < 400 → year_start a + year_length a ≤ year_start b
year_starts_mono a b h l = omega (arith, year_start-suc a (omega arith))

-- A day lies in one year only.
IsYearOf-lt : (doe a b : ℕ) → IsYearOf doe a → IsYearOf doe b → ¬ (a < b)
IsYearOf-lt doe a b p q h = omega (arith, p.not_over, q.begun, year_starts_mono a b h q.year_in)

pub IsYearOf-unique : (doe a b : ℕ) → IsYearOf doe a → IsYearOf doe b → a ≡ b
IsYearOf-unique doe a b p q = omega (arith, IsYearOf-lt doe a b p q, IsYearOf-lt doe b a q p)
