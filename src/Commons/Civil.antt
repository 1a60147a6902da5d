-- ===== src/Commons/Civil.antt =====
-- `Display for Timestamp` (crypto-commons/src/lib.rs): the civil date and the clock of an instant, and
-- the text `year-month-dayThours:minutes:seconds.nanosZ`. The `i64` and `u64` steps are written over
-- integers and natural numbers.
mod Tests
pub mod Eras
pub mod Months
pub mod Calendar
pub mod Turns
pub mod Succession
pub mod Printed
pub mod Width
pub mod Range
use provii_crypto.Prelude.{
  ℕ, zero, suc, ◌+◌, ◌-◌, ◌*◌, ◌/◌, ◌%◌, List, [], ◌∷◌, ◌++◌, Bool, true, false,
}
use provii_crypto.Prelude.{length, replicate, ltb, leb, if◌then◌else◌}
use provii_crypto.Prelude.Int.{
  ℤ, pos, negsuc, to_bits64, ◌+ℤ◌, ◌-ℤ◌, ◌*ℤ◌, ◌/ℤ◌, div_euclid, rem_euclid,
}
use provii_crypto.Prelude.Bytes.{codes}
use provii_crypto.Commons.{Timestamp}

pub record CivilDate : Type 0 where
  pub year : ℤ
  pub month : ℕ
  pub day : ℕ

pub record Clock : Type 0 where
  pub hours : ℕ
  pub minutes : ℕ
  pub seconds : ℕ

abbrev pub is_negative : ℤ → Bool
is_negative (pos n) = false
is_negative (negsuc n) = true

-- `era`, from the days since 0000-03-01.
abbrev pub era_of : ℤ → ℤ
era_of days = (if is_negative days then days -ℤ pos 146_096 else days) /ℤ 146_097

-- `doe`, the day of the era.
abbrev pub day_of_era : ℤ → ℕ
day_of_era days = to_bits64 (days -ℤ era_of days *ℤ 146_097)

-- `yoe`, the year of the era.
unfoldable pub year_of_era : ℕ → ℕ
year_of_era doe = (doe - doe / 1460 + doe / 36524 - doe / 146_096) / 365

-- `doy`, the day of the year that begins on March 1st.
unfoldable pub day_of_year : ℕ → ℕ
day_of_year doe = let yoe = year_of_era doe in doe - (365 * yoe + yoe / 4 - yoe / 100)

-- `mp`, the month counted from March.
abbrev pub month_from_march : ℕ → ℕ
month_from_march doy = (5 * doy + 2) / 153

abbrev pub day_of_month : ℕ → ℕ
day_of_month doy = doy - (153 * month_from_march doy + 2) / 5 + 1

abbrev pub month_of : ℕ → ℕ
month_of mp = if ltb mp 10 then mp + 3 else (mp - 9)

-- The date of day `doe` of an era.
unfoldable pub date_in_era : ℤ → ℕ → CivilDate
date_in_era era doe =
    let y = pos (year_of_era doe) +ℤ era *ℤ 400 in
    let m = month_of (month_from_march (day_of_year doe)) in
    record {
      year = if leb m 2 then y +ℤ pos 1 else y;
      month = m;
      day = day_of_month (day_of_year doe);
    }

-- `civil_from_days`, from the days since 1970-01-01.
unfoldable pub civil_from_days : ℤ → CivilDate
civil_from_days days = let days = days +ℤ pos 719_468 in date_in_era (era_of days) (day_of_era days)

unfoldable pub clock_of : ℕ → Clock
clock_of day_secs = record {
  hours = day_secs / 3600;
  minutes = day_secs % 3600 / 60;
  seconds = day_secs % 3600 % 60;
}

-- The decimal digits of a number of at most `fuel` digits.
unfoldable pub decimal : ℕ → ℕ → List ℕ
decimal zero n = []
decimal (suc fuel) n =
    let rest = decimal fuel (n / 10) in
    if ltb n 10 then (b'0' + n) ∷ [] else rest ++ ((b'0' + n % 10) ∷ [])

-- `{n:0width}` of a `u64` and of an `i64`, whose sign counts as a digit.
unfoldable pub padded : ℕ → ℕ → List ℕ
padded width n = let digits = decimal 20 n in replicate (width - length digits) b'0' ++ digits

abbrev pub padded_signed : ℕ → ℤ → List ℕ
padded_signed width (pos n) = padded width n
padded_signed width (negsuc n) = b'-' ∷ padded (width - 1) (suc n)

abbrev pub date_text : CivilDate → List ℕ
date_text date =
    padded_signed 4 date.year ++ (b'-' ∷ (padded 2 date.month ++ (b'-' ∷ padded 2 date.day)))

abbrev pub clock_text : Clock → List ℕ
clock_text clock =
    padded 2 clock.hours ++ (b':' ∷ (padded 2 clock.minutes ++ (b':' ∷ padded 2 clock.seconds)))

-- `fmt`.
unfoldable pub fmt_timestamp : Timestamp → List ℕ
fmt_timestamp t =
    date_text (civil_from_days (div_euclid t.seconds 86400))
    ++ (b'T'
        ∷ (clock_text (clock_of (rem_euclid t.seconds 86400))
            ++ (b'.' ∷ (padded 9 (to_bits64 t.nanos) ++ (b'Z' ∷ [])))))
