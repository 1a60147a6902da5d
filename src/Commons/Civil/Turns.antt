-- ===== src/Commons/Civil/Turns.antt =====
-- The day after a date of `civil_from_days` within a month and over the end of a month, by the year and the
-- month counted from March.
use provii_crypto.Prelude.{ℕ, suc, ◌+◌, ◌-◌, ◌≤◌, ◌<◌, ◌≡◌, refl, ◌∙◌, arith}
use provii_crypto.Prelude.{Bool, true, false, ◌==◌, ltb, leb, if◌then◌else◌, lt→ltb, ltb-eq_false}
use native.Mathlib.Decide.{dec_lt}
use mathlib.Core.Path.{subst}
use provii_crypto.Prelude.Int.{ℤ}
use provii_crypto.Commons.Civil.{CivilDate, month_of}
use provii_crypto.Commons.Civil.Eras.{ends_leap}
use provii_crypto.Commons.Civil.Months.{month_start}
use provii_crypto.Commons.Civil.Calendar.{
  is_leap, month_length, tomorrow, year_at, is_leap-year_at, year_at-suc,
}

-- Day `d` of month `mp`, counted from March, of year `k` of an era.
abbrev pub march_date : ℤ → ℕ → ℕ → ℕ → CivilDate
march_date era k mp d = record {
  year = if leb (month_of mp) 2 then year_at era (suc k) else year_at era k;
  month = month_of mp;
  day = d;
}

abbrev pub march_length : ℕ → ℕ → ℕ
march_length k mp =
    if mp == 11 then if ends_leap k then 29 else 28 else (month_start (suc mp) - month_start mp)

regular_length :
    (leap : Bool) (mp : ℕ)
    → mp < 11
    → month_length leap (month_of mp) ≡ month_start (suc mp) - month_start mp
regular_length leap mp h = ground arith

pub date_length :
    (era : ℤ) (k mp d : ℕ)
    → mp < 12
    → month_length (is_leap (march_date era k mp d).year) (month_of mp) ≡ march_length k mp
date_length era k mp d h = elim (dec_lt mp 11) [
  | yes p ↦ regular_length (is_leap (march_date era k mp d).year) mp p ∙ ground arith
  | no p ↦ february (omega arith)
]
  where
    february :
        mp ≡ 11
        → month_length (is_leap (march_date era k mp d).year) (month_of mp) ≡ march_length k mp
    february e = rw e (rw (is_leap-year_at era (suc k)) refl)

pub same_month :
    (era : ℤ) (k mp d : ℕ)
    → mp < 12
    → d < march_length k mp
    → tomorrow (march_date era k mp d) ≡ march_date era k mp (d + 1)
unfolding tomorrow
same_month era k mp d h l = rw (date_length era k mp d h) (rw (lt→ltb d (march_length k mp) l) refl)

pub month_range : (mp : ℕ) → mp < 12 → (1 ≤ month_of mp) × (month_of mp ≤ 12)
month_range mp h = (ground arith, ground arith)

-- The last day of a month. Months before December keep the calendar year.
early_month :
    (mp : ℕ)
    → mp < 9
    → (ltb (month_of mp) 12 ≡ true)
      × (leb (month_of mp) 2 ≡ false)
      × (leb (month_of (suc mp)) 2 ≡ false)
      × (month_of mp + 1 ≡ month_of (suc mp))
early_month mp h = (ground arith, ground arith, ground arith, ground arith)

module _ (era : ℤ) (k : ℕ) where
  -- The date after day `d` of month `mp` is the first of month `mp'` of year `k'`.
  abbrev pub Turns : ℕ → ℕ → ℕ → ℕ → Type 0
  Turns mp d k' mp' = tomorrow (march_date era k mp d) ≡ march_date era k' mp' 1

  turn_early : (mp d : ℕ) → mp < 9 → d ≡ march_length k mp → Turns mp d k (suc mp)
  unfolding tomorrow
  turn_early mp d h l =
      let (a, b, c, e) = early_month mp h in
      rw
        (
          date_length era k mp d (omega arith),
          ltb-eq_false d (march_length k mp) (omega (arith, l)),
        )
        (rw (a, b, c, e) refl)

  turn_december : (d : ℕ) → d ≡ march_length k 9 → Turns 9 d k 10
  unfolding tomorrow
  turn_december d l =
      rw (date_length era k 9 d (omega arith), ltb-eq_false d (march_length k 9) (omega (arith, l)))
        (rw (year_at-suc era k) refl)

  turn_january : (d : ℕ) → d ≡ march_length k 10 → Turns 10 d k 11
  unfolding tomorrow
  turn_january d l =
      rw
        (
          date_length era k 10 d (omega arith),
          ltb-eq_false d (march_length k 10) (omega (arith, l)),
        )
        refl

  pub turn_february : (d : ℕ) → d ≡ march_length k 11 → Turns 11 d (suc k) 0
  unfolding tomorrow
  turn_february d l =
      rw
        (
          date_length era k 11 d (omega arith),
          ltb-eq_false d (march_length k 11) (omega (arith, l)),
        )
        refl

  pub next_month : (mp d : ℕ) → mp < 11 → d ≡ march_length k mp → Turns mp d k (suc mp)
  next_month mp d h l = elim (dec_lt mp 9) [
    | yes p ↦ turn_early mp d p l
    | no p ↦ elim (dec_lt mp 10) [
      | yes q ↦
          let e : 9 ≡ mp = omega arith in
          subst (λ m. d ≡ march_length k m → Turns m d k (suc m)) e (turn_december d) l
      | no q ↦
          let e : 10 ≡ mp = omega arith in
          subst (λ m. d ≡ march_length k m → Turns m d k (suc m)) e (turn_january d) l
    ]
  ]
