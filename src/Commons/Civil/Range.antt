-- ===== src/Commons/Civil/Range.antt =====
-- The `i64` steps of `Display for Timestamp` stay in range and its `u64` subtractions do not go below
-- 0, so that the integers and natural numbers of the model are the machine's values.
use mathlib.Core.Path.{subst}
use provii_crypto.Prelude.{
  ℕ, ◌+◌, ◌-◌, ◌*◌, ◌/◌, ◌^◌, ◌≤◌, ◌<◌, ◌≡◌, ap, sym, ◌∙◌, arith, Bool, if◌then◌else◌,
}
use provii_crypto.Prelude.Int.{
  ℤ, pos, negsuc, pos_part, neg_part, IsI64, ◌+ℤ◌, ◌-ℤ◌, ◌*ℤ◌, div_euclid, rem_euclid,
}
use provii_crypto.Commons.{Timestamp}
use provii_crypto.Commons.Civil.{
  year_of_era, day_of_year, month_from_march, date_in_era, civil_from_days, era_of, day_of_era,
}
use provii_crypto.Commons.Civil.Eras.{year_start, year_length_le, year_of_era-IsYearOf}
use provii_crypto.Commons.Civil.Printed.{era_of-eq, day_of_era-eq, rem_euclid_lt}

-- The unsigned subtractions, for day `doe` of an era.
pub record DayFits (doe : ℕ) : Type 0 where
  pub first : doe / 1460 ≤ doe
  pub second : doe / 146_096 ≤ doe - doe / 1460 + doe / 36_524
  pub centuries : year_of_era doe / 100 ≤ 365 * year_of_era doe + year_of_era doe / 4
  pub year_begun : year_start (year_of_era doe) ≤ doe
  pub month_begun : (153 * month_from_march (day_of_year doe) + 2) / 5 ≤ day_of_year doe

day_of_era-DayFits : (doe : ℕ) → doe < 146_097 → DayFits doe
unfolding day_of_year
day_of_era-DayFits doe h =
    let y = year_of_era-IsYearOf doe h in
    record {
      first = omega arith;
      second = omega arith;
      centuries = omega arith;
      year_begun = y.begun;
      month_begun = omega (arith, y.not_over, year_length_le (year_of_era doe));
    }

-- The signed steps, for the days `x` since 0000-03-01.
pub record EraFits (x : ℤ) : Type 0 where
  pub lowered : IsI64 (x -ℤ pos 146_096)
  pub era_days : IsI64 (era_of x *ℤ 146_097)
  pub era_years : IsI64 (era_of x *ℤ 400)
  pub remainder : x -ℤ era_of x *ℤ 146_097 ≡ pos (day_of_era x)

days_fit :
    (seconds : ℤ)
    → IsI64 seconds
    → (pos_part (div_euclid seconds 86400 +ℤ pos 719_468) < 2 ^ 62)
      × (neg_part (div_euclid seconds 86400 +ℤ pos 719_468) < 2 ^ 62)
days_fit (pos n) h = ground arith
days_fit (negsuc n) h = ground arith

era_remainder : (x : ℤ) → x -ℤ div_euclid x 146_097 *ℤ 146_097 ≡ pos (rem_euclid x 146_097)
era_remainder (pos n) = ground arith
era_remainder (negsuc n) = ground arith

-- A number of days that an `i64` of seconds can reach.
abbrev IsReached : ℤ → Type 0
IsReached x = (pos_part x < 2 ^ 62) × (neg_part x < 2 ^ 62)

lowered_fits : (x : ℤ) → IsReached x → IsI64 (x -ℤ pos 146_096)
lowered_fits (pos n) h = ground arith
lowered_fits (negsuc n) h = ground arith

era_days_fit : (x : ℤ) → IsReached x → IsI64 (div_euclid x 146_097 *ℤ 146_097)
era_days_fit (pos n) h = ground arith
era_days_fit (negsuc n) h = ground arith

-- Years are far below the bound, so that the sums of `y` and of `y + 1` stay in range.
era_years_fit : (x : ℤ) → IsReached x → IsReached (div_euclid x 146_097 *ℤ 400)
era_years_fit (pos n) h = ground arith
era_years_fit (negsuc n) h = ground arith

era_of-IsReached : (x : ℤ) → IsReached x → IsReached (era_of x *ℤ 400)
era_of-IsReached x h = subst (λ e. IsReached (e *ℤ 400)) (sym (era_of-eq x)) (era_years_fit x h)

reached-IsI64 : (x : ℤ) → IsReached x → IsI64 x
reached-IsI64 x h = omega arith

pub reached-EraFits : (x : ℤ) → IsReached x → EraFits x
reached-EraFits x h = record {
  lowered = lowered_fits x h;
  era_days = subst (λ e. IsI64 (e *ℤ 146_097)) (sym (era_of-eq x)) (era_days_fit x h);
  era_years = reached-IsI64 (era_of x *ℤ 400) (era_of-IsReached x h);
  remainder =
      ap (λ e. x -ℤ e *ℤ 146_097) (era_of-eq x) ∙ era_remainder x ∙ ap pos (sym (day_of_era-eq x));
}

year_fits :
    (z : ℤ) (k : ℕ) (late : Bool)
    → IsReached z
    → k < 400
    → IsI64 (if late then pos k +ℤ z +ℤ pos 1 else pos k +ℤ z)
year_fits (pos n) k late h l = ground arith
year_fits (negsuc n) k late h l = ground arith

civil_from_days-IsI64 :
    (days : ℤ) → IsReached (days +ℤ pos 719_468) → IsI64 (civil_from_days days).year
unfolding civil_from_days date_in_era
civil_from_days-IsI64 days h =
    year_fits (era_of x *ℤ 400) (year_of_era (day_of_era x)) _ (era_of-IsReached x h)
      ((year_of_era-IsYearOf (day_of_era x) (rw (day_of_era-eq x) (rem_euclid_lt x))).year_in)
  where
    x : ℤ
    x = days +ℤ pos 719_468

pub record StepsFit (days : ℤ) : Type 0 where
  pub shifted : IsI64 (days +ℤ pos 719_468)
  pub era : EraFits (days +ℤ pos 719_468)
  pub day : DayFits (day_of_era (days +ℤ pos 719_468))
  pub year : IsI64 (civil_from_days days).year

-- For every timestamp whose seconds are an `i64`, the signed steps of the printed date stay in the
-- range of `i64`, the remainder that is cast to `u64` is not negative, and no unsigned subtraction
-- goes below 0.
pub civil_from_days-StepsFit :
    (t : Timestamp) → IsI64 t.seconds → StepsFit (div_euclid t.seconds 86400)
civil_from_days-StepsFit t h =
    let r : IsReached x = days_fit t.seconds h in
    record {
      shifted = reached-IsI64 x r;
      era = reached-EraFits x r;
      day = day_of_era-DayFits (day_of_era x) (rw (day_of_era-eq x) (rem_euclid_lt x));
      year = civil_from_days-IsI64 (div_euclid t.seconds 86400) r;
    }
  where
    x : ℤ
    x = div_euclid t.seconds 86400 +ℤ pos 719_468
