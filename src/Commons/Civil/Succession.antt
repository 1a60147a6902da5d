-- ===== src/Commons/Civil/Succession.antt =====
-- `civil_from_days` walks the calendar: the next day number has the next date.
use provii_crypto.Prelude.{ℕ, suc, ◌+◌, ◌-◌, ◌≤◌, ◌<◌, ◌≡◌, ap, refl, sym, ◌∙◌, arith}
use native.Mathlib.Decide.{dec_lt}
use mathlib.Core.Path.{subst}
use provii_crypto.Prelude.Int.{ℤ, pos, ◌+ℤ◌}
use provii_crypto.Commons.Civil.{year_of_era, day_of_year, month_from_march, date_in_era}
use provii_crypto.Commons.Civil.Eras.{
  year_start, year_start-suc, year_length, year_length_le, year_length_ge, IsYearOf,
  year_of_era-IsYearOf, IsYearOf-unique,
}
use provii_crypto.Commons.Civil.Months.{
  month_start, IsMonthOf, month_from_march-IsMonthOf, IsMonthOf-unique,
}
use provii_crypto.Commons.Civil.Calendar.{IsDate, tomorrow, year_at-suc, year_at_next_era}
use provii_crypto.Commons.Civil.Turns.{
  march_date, march_length, date_length, same_month, month_range, turn_february, next_month,
}

-- The date of day `doe` of an era, by the year and the month in which it lies.
pub date_in_era-eq :
    (era : ℤ) (doe k mp : ℕ)
    → doe < 146_097
    → IsYearOf doe k
    → IsMonthOf (doe - year_start k) mp
    → date_in_era era doe ≡ march_date era k mp (doe - year_start k - month_start mp + 1)
unfolding date_in_era day_of_year
date_in_era-eq era doe k mp h y m =
    let e : year_of_era doe ≡ k =
      IsYearOf-unique doe (year_of_era doe) k (year_of_era-IsYearOf doe h) y in
    let f : month_from_march (doe - year_start k) ≡ mp =
      IsMonthOf-unique (doe - year_start k) (month_from_march (doe - year_start k)) mp
        (month_from_march-IsMonthOf (doe - year_start k)
          (omega (arith, y.not_over, year_length_le k)))
        m in
    rw e (rw f (rw (year_at-suc era k) refl))

month_length_last : (k : ℕ) → march_length k 11 + 337 ≡ year_length k
month_length_last k = ground arith

month_length_inner :
    (k mp : ℕ) → mp < 11 → march_length k mp + month_start mp ≡ month_start (suc mp)
month_length_inner k mp h = ground arith

last_year : (k : ℕ) → k ≡ 399 → year_start k + year_length k ≡ 146_097
last_year k e = ground arith

before_last_year : (k : ℕ) → k < 400 → year_start k + year_length k < 146_097 → k < 399
before_last_year k h l = ground arith

module _ (era : ℤ) (doe k mp : ℕ) (y : IsYearOf doe k) (m : IsMonthOf (doe - year_start k) mp) where
  abbrev day_in_year : ℕ
  day_in_year = doe - year_start k

  abbrev day_in_month : ℕ
  day_in_month = day_in_year - month_start mp + 1

  not_last :
      suc doe < year_start k + year_length k
      → suc day_in_year < month_start (suc mp)
      → day_in_month < march_length k mp
  not_last h l = elim (dec_lt mp 11) [
    | yes p ↦ omega (arith, month_length_inner k mp p, m.begun)
    | no p ↦
        let e : 11 ≡ mp = omega (arith, m.month_in) in
        subst
          (λ n. (month_start n ≤ day_in_year) → day_in_year - month_start n + 1 < march_length k n)
          e (λ b. omega (arith, month_length_last k, y.begun)) m.begun
  ]

  next_in_year :
      suc doe < 146_097
      → suc doe < year_start k + year_length k
      → tomorrow (march_date era k mp day_in_month) ≡ date_in_era era (suc doe)
  next_in_year b h =
      let y' : IsYearOf (suc doe) k = record {
        year_in = y.year_in;
        begun = omega (arith, y.begun);
        not_over = h;
      } in
      let s : suc doe - year_start k ≡ suc day_in_year = omega (arith, y.begun) in
      elim (dec_lt (suc day_in_year) (month_start (suc mp))) [
        | yes p ↦
            same_month era k mp day_in_month m.month_in (not_last h p)
            ∙ ap (march_date era k mp) (omega (arith, y.begun, m.begun))
            ∙ sym (
                date_in_era-eq era (suc doe) k mp b y' (record {
                  month_in = m.month_in;
                  begun = omega (arith, m.begun);
                  not_over = omega arith;
                }))
        | no p ↦
            let inner : mp < 11 = omega (arith, m.month_in, year_length_le k, y.begun) in
            next_month era k mp day_in_month inner
              (omega (arith, month_length_inner k mp inner, m.begun, m.not_over))
            ∙ ap (march_date era k (suc mp)) (omega (arith, y.begun, m.begun, m.not_over))
            ∙ sym (
                date_in_era-eq era (suc doe) k (suc mp) b y' (record {
                  month_in = omega arith;
                  begun = omega (arith, m.not_over);
                  not_over = omega (arith, m.not_over);
                }))
      ]

  last_month :
      suc doe ≡ year_start k + year_length k → (11 ≡ mp) × (day_in_month ≡ march_length k mp)
  last_month h =
      let e : 11 ≡ mp = omega (arith, y.begun, m.month_in, m.not_over, year_length_ge k) in
      (
        e,
        subst
            (λ n.
              (month_start n ≤ day_in_year) → day_in_year - month_start n + 1 ≡ march_length k n)
            e (λ b. omega (arith, month_length_last k, y.begun)) m.begun,
      )

  after_last_month :
      suc doe ≡ year_start k + year_length k
      → tomorrow (march_date era k mp day_in_month) ≡ march_date era (suc k) 0 1
  after_last_month h =
      let (e, d) = last_month h in
      subst
        (λ n.
          day_in_month ≡ march_length k n
          → tomorrow (march_date era k n day_in_month) ≡ march_date era (suc k) 0 1)
        e (turn_february era k day_in_month) d

  next_year :
      suc doe < 146_097
      → suc doe ≡ year_start k + year_length k
      → tomorrow (march_date era k mp day_in_month) ≡ date_in_era era (suc doe)
  next_year b h =
      let l : k < 399 = before_last_year k y.year_in (omega (arith, h)) in
      let s : year_start (suc k) ≡ suc doe = omega (arith, year_start-suc k l) in
      after_last_month h
      ∙ ap (march_date era (suc k) 0) (omega arith)
      ∙ sym (
          date_in_era-eq era (suc doe) (suc k) 0 b
            (record {
              year_in = omega arith;
              begun = omega arith;
              not_over = omega (arith, year_length_ge (suc k));
            })
            (record { month_in = omega arith; begun = omega arith; not_over = omega arith }))

module _ (era : ℤ) (doe : ℕ) (h : doe < 146_097) where
  abbrev k : ℕ
  k = year_of_era doe

  abbrev y : IsYearOf doe k
  y = year_of_era-IsYearOf doe h

  abbrev mp : ℕ
  mp = month_from_march (doe - year_start k)

  abbrev m : IsMonthOf (doe - year_start k) mp
  m = month_from_march-IsMonthOf (doe - year_start k) (omega (arith, y.not_over, year_length_le k))

  as_march_date :
      date_in_era era doe ≡ march_date era k mp (doe - year_start k - month_start mp + 1)
  as_march_date = date_in_era-eq era doe k mp h y m

  -- Within an era.
  pub tomorrow-date_in_era :
      suc doe < 146_097 → tomorrow (date_in_era era doe) ≡ date_in_era era (suc doe)
  tomorrow-date_in_era b =
      ap tomorrow as_march_date ∙ (elim (dec_lt (suc doe) (year_start k + year_length k)) [
        | yes p ↦ next_in_year era doe k mp y m b p
        | no p ↦ next_year era doe k mp y m b (omega (arith, y.not_over))
      ])

  -- From an era to the next.
  pub tomorrow-last_of_era :
      suc doe ≡ 146_097 → tomorrow (date_in_era era doe) ≡ date_in_era (era +ℤ pos 1) 0
  tomorrow-last_of_era e =
      let last : k ≡ 399 = omega (arith, y.year_in, y.not_over, year_length_le k) in
      ap tomorrow as_march_date
      ∙ after_last_month era doe k mp y m (omega (arith, last_year k last))
      ∙ ap (λ n. march_date era (suc n) 0 1) last
      ∙ rw (year_at_next_era era) refl
      ∙ sym (
          date_in_era-eq (era +ℤ pos 1) 0 0 0 (omega arith)
            (record { year_in = omega arith; begun = omega arith; not_over = omega arith })
            (record { month_in = omega arith; begun = omega arith; not_over = omega arith }))

  march_day : doe - year_start k - month_start mp + 1 ≤ march_length k mp
  march_day = elim (dec_lt mp 11) [
    | yes p ↦ omega (arith, month_length_inner k mp p, m.begun, m.not_over)
    | no p ↦
        let e : 11 ≡ mp = omega (arith, m.month_in) in
        subst (λ n. doe - year_start k - month_start n + 1 ≤ march_length k n) e
          (omega (arith, month_length_last k, y.begun, y.not_over, year_length_ge k))
  ]

  pub date_in_era-IsDate : IsDate (date_in_era era doe)
  date_in_era-IsDate = subst IsDate (sym as_march_date) (record {
    month_in = month_range mp m.month_in;
    day_in = (
      omega arith,
      rw (date_length era k mp (doe - year_start k - month_start mp + 1) m.month_in) march_day,
    );
  })
