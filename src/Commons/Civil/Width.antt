-- ===== src/Commons/Civil/Width.antt =====
-- The width of the text that `Display for Timestamp` prints.
use provii_crypto.Prelude.{
  ℕ, zero, suc, ◌+◌, ◌-◌, ◌/◌, ◌%◌, ◌^◌, ◌≤◌, ◌<◌, ◌≡◌, ap, refl, inl, inr, arith, List, [], ◌∷◌,
  ◌++◌,
}
use provii_crypto.Prelude.{ltb, length, length-append, replicate, Bool-cases, lt→ltb, Bool}
use native.Mathlib.Nat.{pow-suc}
use provii_crypto.Prelude.Int.{ℤ, pos, negsuc, pos_part, div_euclid, rem_euclid}
use provii_crypto.Prelude.{ok}
use provii_crypto.Commons.{Timestamp, new_timestamp}
use provii_crypto.Commons.Civil.{
  CivilDate, Clock, civil_from_days, clock_of, decimal, padded, date_text, clock_text,
  fmt_timestamp,
}
use provii_crypto.Commons.Civil.Calendar.{is_leap, month_length, IsDate}
use provii_crypto.Commons.Civil.Printed.{
  civil_from_days-IsDate, clock_of-IsClock, IsClock, day_secs_lt,
}

length-replicate : (n b : ℕ) → length (replicate n b) ≡ n
length-replicate zero b = refl
length-replicate (suc n) b = ap suc (length-replicate n b)

length-decimal_le :
    (fuel width n : ℕ) → 0 < width → n < 10 ^ width → length (decimal fuel n) ≤ width
unfolding decimal
length-decimal_le zero width n w h = omega arith
length-decimal_le (suc fuel) zero n w h = absurd (omega arith)
length-decimal_le (suc fuel) (suc zero) n w h = rw (lt→ltb n 10 (omega arith)) (omega arith)
length-decimal_le (suc fuel) (suc (suc width)) n w h = elim (Bool-cases (ltb n 10)) [
  | inl e ↦ rw e (omega arith)
  | inr e ↦ rw e (
      omega (
        arith,
        length-append (decimal fuel (n / 10)) ((b'0' + n % 10) ∷ []),
        length-decimal_le fuel (suc width) (n / 10) (omega arith)
            (omega (arith, pow-suc 10 (suc width))),
      ))
]

length-padded : (width n : ℕ) → 0 < width → n < 10 ^ width → length (padded width n) ≡ width
unfolding padded
length-padded width n w h = omega (
  arith,
  length-append (replicate (width - length (decimal 20 n)) b'0') (decimal 20 n),
  length-replicate (width - length (decimal 20 n)) b'0',
  length-decimal_le 20 width n w h,
)

month_length_le : (leap : Bool) (m : ℕ) → month_length leap m ≤ 31
month_length_le leap m = ground arith

length-date_text :
    (t : CivilDate) (y : ℕ) → IsDate t → t.year ≡ pos y → y < 10_000 → length (date_text t) ≡ 10
length-date_text t y v e h = rw e (
    omega (
      arith,
      length-append (padded 4 y) (b'-' ∷ (padded 2 t.month ++ (b'-' ∷ padded 2 t.day))),
      length-append (padded 2 t.month) (b'-' ∷ padded 2 t.day),
      length-padded 4 y (omega arith) h,
      length-padded 2 t.month (omega arith) (omega (arith, v.month_in)),
      length-padded 2 t.day (omega arith)
          (omega (arith, v.day_in, month_length_le (is_leap t.year) t.month)),
    ))

length-clock_text : (c : Clock) → IsClock c → length (clock_text c) ≡ 8
length-clock_text c v = omega (
  arith,
  length-append (padded 2 c.hours) (b':' ∷ (padded 2 c.minutes ++ (b':' ∷ padded 2 c.seconds))),
  length-append (padded 2 c.minutes) (b':' ∷ padded 2 c.seconds),
  length-padded 2 c.hours (omega arith) (omega (arith, v.hours_in)),
  length-padded 2 c.minutes (omega arith) (omega (arith, v.minutes_in)),
  length-padded 2 c.seconds (omega arith) (omega (arith, v.seconds_in)),
)

length-text :
    (date clock nanos : List ℕ)
    → length (date ++ (b'T' ∷ (clock ++ (b'.' ∷ (nanos ++ (b'Z' ∷ []))))))
      ≡ length date + length clock + length nanos + 3
length-text date clock nanos = omega (
  arith,
  length-append date (b'T' ∷ (clock ++ (b'.' ∷ (nanos ++ (b'Z' ∷ []))))),
  length-append clock (b'.' ∷ (nanos ++ (b'Z' ∷ []))),
  length-append nanos (b'Z' ∷ []),
)

record IsNew (seconds nanos : ℤ) (t : Timestamp) : Type 0 where
  seconds_kept : t.seconds ≡ seconds
  nanos_kept : t.nanos ≡ pos (pos_part nanos)
  nanos_in : pos_part nanos < 1_000_000_000

new_timestamp-IsNew :
    (seconds nanos : ℤ) (t : Timestamp) → new_timestamp seconds nanos ≡ ok t → IsNew seconds nanos t
unfolding new_timestamp
new_timestamp-IsNew seconds (pos n) t e = record {
  seconds_kept = ground arith;
  nanos_kept = ground arith;
  nanos_in = ground arith;
}
new_timestamp-IsNew seconds (negsuc n) t e = cc

-- A timestamp that `Timestamp::new` returns and whose year is from 0 to 9999 prints as 30 bytes.
pub length-fmt_timestamp :
    (seconds nanos : ℤ) (t : Timestamp) (y : ℕ)
    → new_timestamp seconds nanos ≡ ok t
    → (civil_from_days (div_euclid seconds 86400)).year ≡ pos y
    → y < 10_000
    → length (fmt_timestamp t) ≡ 30
unfolding fmt_timestamp
length-fmt_timestamp seconds nanos t y e d h =
    let r = new_timestamp-IsNew seconds nanos t e in
    rw (r.seconds_kept, r.nanos_kept)
      (omega (
        arith,
        length-text (date_text (civil_from_days (div_euclid seconds 86400)))
            (clock_text (clock_of (rem_euclid seconds 86400))) (padded 9 (pos_part nanos)),
        length-date_text (civil_from_days (div_euclid seconds 86400)) y
            (civil_from_days-IsDate (div_euclid seconds 86400)) d h,
        length-clock_text (clock_of (rem_euclid seconds 86400))
            (clock_of-IsClock (rem_euclid seconds 86400) (day_secs_lt seconds)),
        length-padded 9 (pos_part nanos) (omega arith) (omega (arith, r.nanos_in)),
      ))
