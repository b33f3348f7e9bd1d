-- ===== src/Host/Dates.antt =====
-- crates/vdsm-host/src/stats.rs: the date of `iso_utc_now`, from seconds since 1970. Seconds are not
-- negative there: a clock before 1970 reads as 0.
use vdsm_rs.Base.{
  ℕ, ◌+◌, ◌-◌, ◌*◌, ◌/◌, ◌%◌, [], ◌∷◌, ◌++◌, if◌then◌else◌, ◌==◌, ltb, leb, Text, codes, length,
}
use vdsm_rs.Encoding.Decimal.{to_string}

-- A day of the calendar.
pub record Date : Type 0 where
  pub year : ℕ
  pub month : ℕ
  pub day : ℕ

-- The year of a day in its era of 400 years, counted from March.
unfoldable pub year_of_era : ℕ → ℕ
year_of_era doe = (doe - doe / 1460 + doe / 36524 - doe / 146096) / 365

unfoldable pub day_of_year : ℕ → ℕ → ℕ
day_of_year doe yoe = doe - (365 * yoe + yoe / 4 - yoe / 100)

unfoldable pub month_part : ℕ → ℕ
month_part doy = (5 * doy + 2) / 153

-- `iso_utc_now`: the date of a number of days.
unfoldable pub civil : ℕ → Date
civil days =
    let z = days + 719468 in
    let era = z / 146097 in
    let doe = z - era * 146097 in
    let yoe = year_of_era doe in
    let doy = day_of_year doe yoe in
    let mp = month_part doy in
    let m = if ltb mp 10 then mp + 3 else mp - 9 in
    record {
      year = yoe + era * 400 + (if leb m 2 then 1 else 0);
      month = m;
      day = doy - (153 * mp + 2) / 5 + 1;
    }

leading_zeros : ℕ → Text
leading_zeros n =
    if n == 0 then [] else if n == 1 then codes "0" else if n == 2 then codes "00" else codes "000"

-- A number with at least so many digits, up to four.
unfoldable pub padded : ℕ → ℕ → Text
unfolding leading_zeros
padded w n = leading_zeros (w - length (to_string n)) ++ to_string n

-- The text of `iso_utc_now` at a number of seconds.
unfoldable pub iso_utc : ℕ → Text
iso_utc secs =
    let date = civil (secs / 86400) in
    let s = secs % 86400 in
    padded 4 date.year
    ++ (b'-' ∷ padded 2 date.month
        ++ (b'-' ∷ padded 2 date.day
            ++ (b' ' ∷ padded 2 (s / 3600)
                ++ (b':' ∷ padded 2 (s % 3600 / 60)
                    ++ (b':' ∷ padded 2 (s % 60) ++ codes " -0000")))))
