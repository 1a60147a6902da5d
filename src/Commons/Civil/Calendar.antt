-- ===== src/Commons/Civil/Calendar.antt =====
-- The proleptic Gregorian calendar, described without the eras: leap years, the lengths of months,
-- and the day after a date.
use provii_crypto.Prelude.{ℕ, suc, ◌+◌, ◌%◌, ◌≤◌, ◌≡◌, refl, arith}
use provii_crypto.Prelude.{Bool, not, ◌&&◌, ◌||◌, ◌==◌, ltb, if◌then◌else◌}
use provii_crypto.Prelude.Int.{ℤ, pos, negsuc, ◌+ℤ◌, ◌*ℤ◌, rem_euclid}
use provii_crypto.Commons.Civil.{CivilDate}

-- The leap rule, on the remainders by 4, 100 and 400.
abbrev pub leap_rule : ℕ → ℕ → ℕ → Bool
leap_rule by_4 by_100 by_400 = by_4 == 0 && (not (by_100 == 0) || by_400 == 0)

abbrev pub is_leap : ℤ → Bool
is_leap y = leap_rule (rem_euclid y 4) (rem_euclid y 100) (rem_euclid y 400)

-- The length of a month, in a leap year or not.
abbrev pub month_length : Bool → ℕ → ℕ
month_length leap m =
    if m == 2
    then if leap then 29 else 28
    else if m == 4 || (m == 6 || (m == 9 || m == 11))
    then 30
    else 31

pub record IsDate (t : CivilDate) : Type 0 where
  pub month_in : (1 ≤ t.month) × (t.month ≤ 12)
  pub day_in : (1 ≤ t.day) × (t.day ≤ month_length (is_leap t.year) t.month)

-- The day after.
unfoldable pub tomorrow : CivilDate → CivilDate
tomorrow t =
    if ltb t.day (month_length (is_leap t.year) t.month)
    then record { year = t.year; month = t.month; day = t.day + 1 }
    else if ltb t.month 12
    then record { year = t.year; month = t.month + 1; day = 1 }
    else record { year = t.year +ℤ pos 1; month = 1; day = 1 }

-- Year `k` of an era, and the leap rule at it.
abbrev pub year_at : ℤ → ℕ → ℤ
year_at era k = pos k +ℤ era *ℤ 400

rem_4 : (era : ℤ) (k : ℕ) → rem_euclid (year_at era k) 4 ≡ k % 4
rem_4 (pos e) k = ground arith
rem_4 (negsuc e) k = ground arith

rem_100 : (era : ℤ) (k : ℕ) → rem_euclid (year_at era k) 100 ≡ k % 100
rem_100 (pos e) k = ground arith
rem_100 (negsuc e) k = ground arith

rem_400 : (era : ℤ) (k : ℕ) → rem_euclid (year_at era k) 400 ≡ k % 400
rem_400 (pos e) k = ground arith
rem_400 (negsuc e) k = ground arith

pub is_leap-year_at :
    (era : ℤ) (k : ℕ) → is_leap (year_at era k) ≡ leap_rule (k % 4) (k % 100) (k % 400)
is_leap-year_at era k = rw (rem_4, rem_100, rem_400) refl

pub year_at-suc : (era : ℤ) (k : ℕ) → year_at era k +ℤ pos 1 ≡ year_at era (suc k)
year_at-suc (pos e) k = ground arith
year_at-suc (negsuc e) k = ground arith

pub year_at_next_era : (era : ℤ) → year_at era 400 ≡ year_at (era +ℤ pos 1) 0
year_at_next_era (pos e) = ground arith
year_at_next_era (negsuc e) = ground arith
