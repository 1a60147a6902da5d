-- ===== src/Commons/Civil/Printed.antt =====
-- What `Display for Timestamp` prints: the dates of the Gregorian calendar in their order, a clock
-- that counts the seconds of the day, and fields of fixed width.
use provii_crypto.Prelude.{
  ℕ, suc, ◌+◌, ◌*◌, ◌<◌, ◌≡◌, ap, ap₂, refl, sym, ◌∙◌, ◌⊎◌, inl, inr, arith,
}
use mathlib.Core.Path.{subst}
use provii_crypto.Prelude.Int.{ℤ, pos, negsuc, ◌+ℤ◌, ◌*ℤ◌, div_euclid, rem_euclid}
use provii_crypto.Commons.Civil.{
  CivilDate, Clock, year_of_era, day_of_year, date_in_era, civil_from_days, era_of, day_of_era,
  clock_of,
}
use provii_crypto.Commons.Civil.Calendar.{IsDate, tomorrow}
use provii_crypto.Commons.Civil.Succession.{
  tomorrow-date_in_era, tomorrow-last_of_era, date_in_era-IsDate,
}

-- The era of a day is found by floor division, and its day by the remainder.
pub era_of-eq : (days : ℤ) → era_of days ≡ div_euclid days 146_097
era_of-eq (pos n) = refl
era_of-eq (negsuc n) = ground arith

pub day_of_era-eq : (days : ℤ) → day_of_era days ≡ rem_euclid days 146_097
day_of_era-eq (pos n) = ground arith
day_of_era-eq (negsuc n) = rw (era_of-eq (negsuc n)) (ground arith)

pub rem_euclid_lt : (days : ℤ) → rem_euclid days 146_097 < 146_097
rem_euclid_lt (pos n) = omega arith
rem_euclid_lt (negsuc n) = omega arith

-- The next day is the next of the era, or the first of the next one.
next_in_era :
    (days : ℤ)
    → ((div_euclid (days +ℤ pos 1) 146_097 ≡ div_euclid days 146_097)
        × (rem_euclid (days +ℤ pos 1) 146_097 ≡ suc (rem_euclid days 146_097)))
      ⊎ ((div_euclid (days +ℤ pos 1) 146_097 ≡ div_euclid days 146_097 +ℤ pos 1)
          × (suc (rem_euclid days 146_097) ≡ 146_097)
          × (rem_euclid (days +ℤ pos 1) 146_097 ≡ 0))
next_in_era days = ground arith

abbrev epoch : CivilDate
epoch = record { year = pos 1970; month = 1; day = 1 }

civil_from_days-eq :
    (days : ℤ)
    → civil_from_days days
      ≡ date_in_era
          (div_euclid (days +ℤ pos 719_468) 146_097)
          (rem_euclid (days +ℤ pos 719_468) 146_097)
unfolding civil_from_days
civil_from_days-eq days =
    ap₂ date_in_era (era_of-eq (days +ℤ pos 719_468)) (day_of_era-eq (days +ℤ pos 719_468))

tomorrow-shifted :
    (x : ℤ)
    → tomorrow (date_in_era (div_euclid x 146_097) (rem_euclid x 146_097))
      ≡ date_in_era (div_euclid (x +ℤ pos 1) 146_097) (rem_euclid (x +ℤ pos 1) 146_097)
tomorrow-shifted x = elim (next_in_era x) [
  | inl (e, r) ↦
      tomorrow-date_in_era (div_euclid x 146_097) (rem_euclid x 146_097) (rem_euclid_lt x)
        (omega (arith, r, rem_euclid_lt (x +ℤ pos 1)))
      ∙ sym (ap₂ date_in_era e r)
  | inr (e, l, r) ↦
      tomorrow-last_of_era (div_euclid x 146_097) (rem_euclid x 146_097) (rem_euclid_lt x) l
      ∙ sym (ap₂ date_in_era e r)
]

shift_comm : (days : ℤ) → days +ℤ pos 719_468 +ℤ pos 1 ≡ days +ℤ pos 1 +ℤ pos 719_468
shift_comm (pos n) = ground arith
shift_comm (negsuc n) = ground arith

pub civil_from_days-IsDate : (days : ℤ) → IsDate (civil_from_days days)
civil_from_days-IsDate days =
    subst IsDate (sym (civil_from_days-eq days))
      (date_in_era-IsDate (div_euclid x 146_097) (rem_euclid x 146_097) (rem_euclid_lt x))
  where
    x : ℤ
    x = days +ℤ pos 719_468

tomorrow_next : (days : ℤ) → tomorrow (civil_from_days days) ≡ civil_from_days (days +ℤ pos 1)
tomorrow_next days =
    ap tomorrow (civil_from_days-eq days)
    ∙ tomorrow-shifted (days +ℤ pos 719_468)
    ∙ ap (λ x. date_in_era (div_euclid x 146_097) (rem_euclid x 146_097)) (shift_comm days)
    ∙ sym (civil_from_days-eq (days +ℤ pos 1))

first_day : civil_from_days (pos 0) ≡ epoch
unfolding civil_from_days date_in_era year_of_era day_of_year
first_day = refl

-- The printed date of day 0 is 1970-01-01, and of every day number, before or after the epoch, it is
-- a date of the Gregorian calendar whose next day is the date of the next day number.
pub civil_from_days-tomorrow :
    (civil_from_days (pos 0) ≡ epoch)
    × ((days : ℤ) → IsDate (civil_from_days days))
    × ((days : ℤ) → tomorrow (civil_from_days days) ≡ civil_from_days (days +ℤ pos 1))
civil_from_days-tomorrow = (first_day, civil_from_days-IsDate, tomorrow_next)

-- The printed clock is in range.
pub record IsClock (c : Clock) : Type 0 where
  pub hours_in : c.hours < 24
  pub minutes_in : c.minutes < 60
  pub seconds_in : c.seconds < 60

pub clock_of-IsClock : (day_secs : ℕ) → day_secs < 86_400 → IsClock (clock_of day_secs)
unfolding clock_of
clock_of-IsClock day_secs h = record {
  hours_in = omega arith;
  minutes_in = omega arith;
  seconds_in = omega arith;
}

pub day_secs_lt : (seconds : ℤ) → rem_euclid seconds 86_400 < 86_400
day_secs_lt (pos n) = omega arith
day_secs_lt (negsuc n) = omega arith

-- The seconds of a day that a clock shows.
abbrev pub clock_seconds : Clock → ℕ
clock_seconds c = c.hours * 3600 + c.minutes * 60 + c.seconds

clock_seconds-clock_of : (n : ℕ) → clock_seconds (clock_of n) ≡ n
unfolding clock_of
clock_seconds-clock_of n = omega arith

days_and_seconds : (t : ℤ) → div_euclid t 86_400 *ℤ 86_400 +ℤ pos (rem_euclid t 86_400) ≡ t
days_and_seconds (pos n) = ground arith
days_and_seconds (negsuc n) = ground arith

-- Every number of seconds, before or after the epoch, is shown as a clock from 00:00:00 to 23:59:59
-- on a day such that day and clock together are that number of seconds.
pub clock_of-div_euclid :
    (t : ℤ)
    → IsClock (clock_of (rem_euclid t 86_400))
      × (div_euclid t 86_400 *ℤ 86_400 +ℤ pos (clock_seconds (clock_of (rem_euclid t 86_400))) ≡ t)
clock_of-div_euclid t = (
  clock_of-IsClock (rem_euclid t 86_400) (day_secs_lt t),
  rw (clock_seconds-clock_of (rem_euclid t 86_400)) (days_and_seconds t),
)
