-- ===== src/Commons/Civil/Months.antt =====
-- The months of a year that begins on March 1st: the 153-day pattern gives their lengths, in order.
use provii_crypto.Prelude.{ℕ, suc, ◌+◌, ◌*◌, ◌/◌, ◌≤◌, ◌<◌, ◌≡◌, arith}
use provii_crypto.Commons.Civil.{month_from_march}

-- The days before the month.
abbrev pub month_start : ℕ → ℕ
month_start mp = (153 * mp + 2) / 5

pub record IsMonthOf (doy mp : ℕ) : Type 0 where
  pub month_in : mp < 12
  pub begun : month_start mp ≤ doy
  pub not_over : doy < month_start (suc mp)

pub month_from_march-IsMonthOf : (doy : ℕ) → doy < 366 → IsMonthOf doy (month_from_march doy)
month_from_march-IsMonthOf doy h = record {
  month_in = omega arith;
  begun = omega arith;
  not_over = omega arith;
}

pub IsMonthOf-unique : (doy a b : ℕ) → IsMonthOf doy a → IsMonthOf doy b → a ≡ b
IsMonthOf-unique doy a b p q = omega (arith, p.begun, q.begun, p.not_over, q.not_over)
