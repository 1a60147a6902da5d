-- ===== src/Commons/Civil/Tests.antt =====
-- Runs of `Display for Timestamp`.
use provii_crypto.Prelude.{◌≡◌, refl, ok, arith}
use provii_crypto.Prelude.Int.{pos, negsuc, div_euclid, rem_euclid, ◌+ℤ◌, ◌*ℤ◌}
use provii_crypto.Prelude.Bytes.{codes}
use provii_crypto.Commons.{Timestamp, new_timestamp}
use provii_crypto.Commons.Civil.Printed.{IsClock, clock_seconds, clock_of-div_euclid}
use provii_crypto.Commons.Civil.Range.{StepsFit, civil_from_days-StepsFit}
use provii_crypto.Commons.Civil.{
  fmt_timestamp, civil_from_days, clock_of, date_in_era, year_of_era, day_of_year, padded, decimal,
}

-- The texts that the crate's tests pin, and one from before the epoch.
known_date :
    fmt_timestamp (record { seconds = pos 1768480200; nanos = pos 123456789 })
    ≡ codes "2026-01-15T12:30:00.123456789Z"
unfolding fmt_timestamp civil_from_days clock_of date_in_era year_of_era day_of_year padded decimal
known_date = refl

last_second_before_epoch :
    fmt_timestamp (record { seconds = negsuc 0; nanos = pos 0 })
    ≡ codes "1969-12-31T23:59:59.000000000Z"
unfolding fmt_timestamp civil_from_days clock_of date_in_era year_of_era day_of_year padded decimal
last_second_before_epoch = refl

before_year_zero :
    fmt_timestamp (record { seconds = negsuc 62230291199; nanos = pos 0 })
    ≡ codes "-002-01-01T00:00:00.000000000Z"
unfolding fmt_timestamp civil_from_days clock_of date_in_era year_of_era day_of_year padded decimal
before_year_zero = refl

clock_of-div_euclid_example :
    IsClock (clock_of (rem_euclid (negsuc 0) 86_400))
    × (div_euclid (negsuc 0) 86_400 *ℤ 86_400
          +ℤ pos (clock_seconds (clock_of (rem_euclid (negsuc 0) 86_400)))
        ≡ negsuc 0)
clock_of-div_euclid_example = clock_of-div_euclid (negsuc 0)

abbrev january_2026 : Timestamp
january_2026 = record { seconds = pos 1768480200; nanos = pos 123456789 }

january_2026_is_new : new_timestamp (pos 1768480200) (pos 123456789) ≡ ok january_2026
unfolding new_timestamp
january_2026_is_new = refl

year_of_january_2026 : (civil_from_days (div_euclid (pos 1768480200) 86400)).year ≡ pos 2026
unfolding civil_from_days date_in_era year_of_era day_of_year
year_of_january_2026 = refl

civil_from_days-StepsFit_example : StepsFit (div_euclid (negsuc 62230291199) 86400)
civil_from_days-StepsFit_example =
    civil_from_days-StepsFit (record { seconds = negsuc 62230291199; nanos = pos 0 }) (omega arith)
