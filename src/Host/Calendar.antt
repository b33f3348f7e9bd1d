-- ===== src/Host/Calendar.antt =====
-- crates/vdsm-host/src/stats.rs: the dates of `iso_utc_now` follow each other as in the calendar.
use vdsm_rs.Base.{
  ℕ, ◌+◌, ◌-◌, ◌*◌, ◌/◌, ◌%◌, ◌≤◌, ◌<◌, ◌≡◌, refl, ap, sym, ◌∙◌, Bool, ◌&&◌, ◌||◌, not,
  if◌then◌else◌, ◌==◌, ltb, leb, arith,
}
use native.Mathlib.Decide.{dec_lt}
use vdsm_rs.Host.Dates.{Date, civil, year_of_era, day_of_year, month_part}

-- The days of an era before a year.
abbrev before_year : ℕ → ℕ
before_year y = 365 * y + y / 4 - y / 100

year_lower : (doe : ℕ) → doe < 146097 → before_year (year_of_era doe) ≤ doe
unfolding year_of_era
year_lower doe h = omega arith

year_upper :
    (doe : ℕ) → doe < 146097 → doe < before_year (year_of_era doe + 1) + (year_of_era doe + 1) / 400
unfolding year_of_era
year_upper doe h = omega arith

-- The bounds of a year of the era fix it.
year_unique :
    (doe y : ℕ)
    → doe < 146097
    → before_year y ≤ doe
    → doe < before_year (y + 1) + (y + 1) / 400
    → y < 400
    → year_of_era doe ≡ y
unfolding year_of_era
year_unique doe y h lo hi k = omega arith

month_of : ℕ → ℕ
month_of mp = if ltb mp 10 then mp + 3 else mp - 9

-- The date of a day of a year that begins in March.
of_parts : ℕ → ℕ → Date
of_parts y doy =
    let mp = month_part doy in
    record {
      year = y + (if leb (month_of mp) 2 then 1 else 0);
      month = month_of mp;
      day = doy - (153 * mp + 2) / 5 + 1;
    }

civil-of_parts :
    (n : ℕ)
    → let era = (n + 719468) / 146097 in
      let doe = (n + 719468) - era * 146097 in
      civil n ≡ of_parts (year_of_era doe + era * 400) (day_of_year doe (year_of_era doe))
unfolding civil of_parts month_of
civil-of_parts n = refl

-- The calendar: leap years, the days of a month and the day behind a day.
unfoldable pub is_leap : ℕ → Bool
is_leap y = (y % 4 == 0) && (not (y % 100 == 0) || (y % 400 == 0))

unfoldable pub days_in : ℕ → ℕ → ℕ
days_in y m =
    if m == 2
    then (if is_leap y then 29 else 28)
    else if (m == 4) || (m == 6) || (m == 9) || (m == 11)
    then 30
    else 31

unfoldable pub next_date : Date → Date
next_date d =
    if ltb d.day (days_in d.year d.month)
    then record d { day = d.day + 1 }
    else if ltb d.month 12
    then record { year = d.year; month = d.month + 1; day = 1 }
    else record { year = d.year + 1; month = 1; day = 1 }

-- The days of the year that begins in March of a year.
year_length : ℕ → ℕ
year_length y = if is_leap (y + 1) then 366 else 365

next_in_year :
    (y doy : ℕ) → doy + 1 < year_length y → of_parts y (doy + 1) ≡ next_date (of_parts y doy)
unfolding of_parts month_of month_part next_date days_in year_length
next_in_year y doy h = ground arith

next_year : (y doy : ℕ) → doy + 1 ≡ year_length y → of_parts (y + 1) 0 ≡ next_date (of_parts y doy)
unfolding of_parts month_of month_part next_date days_in year_length
next_year y doy h = ground arith

-- The length of a year, from the days of the era.
year_length_lem :
    (y era : ℕ)
    → y < 400
    → before_year y + year_length (y + era * 400) ≡ before_year (y + 1) + (y + 1) / 400
unfolding year_length is_leap
year_length_lem y era k = ground arith

year_below : (doe : ℕ) → doe < 146097 → year_of_era doe < 400
unfolding year_of_era
year_below doe h = omega arith

-- Where a day stands: its era, and its day in it.
era_of : ℕ → ℕ
era_of z = z / 146097

doe_of : ℕ → ℕ
doe_of z = z - z / 146097 * 146097

doe_below : (z : ℕ) → doe_of z < 146097
unfolding doe_of
doe_below z = omega arith

date_in : ℕ → ℕ → Date
date_in era doe = of_parts (year_of_era doe + era * 400) (day_of_year doe (year_of_era doe))

-- The next day, in the same year of the era.
same_year :
    (era doe : ℕ)
    → doe + 1 < 146097
    → doe + 1 < before_year (year_of_era doe + 1) + (year_of_era doe + 1) / 400
    → date_in era (doe + 1) ≡ next_date (date_in era doe)
unfolding date_in day_of_year
same_year era doe h k =
    let y = year_of_era doe in
    let lo = year_lower doe (omega arith) in
    let below = year_below doe (omega arith) in
    let e : year_of_era (doe + 1) ≡ y = year_unique (doe + 1) y h (omega arith) k below in
    let f : doe + 1 - before_year y ≡ (doe - before_year y) + 1 = omega arith in
    rw e (
      rw f (
        next_in_year (y + era * 400) (doe - before_year y)
          (omega (arith, year_length_lem y era below))))

-- The next day, the first of the next year of the era.
new_year :
    (era doe : ℕ)
    → doe + 1 < 146097
    → before_year (year_of_era doe + 1) + (year_of_era doe + 1) / 400 ≤ doe + 1
    → date_in era (doe + 1) ≡ next_date (date_in era doe)
unfolding date_in day_of_year
new_year era doe h k =
    let y = year_of_era doe in
    let lo = year_lower doe (omega arith) in
    let hi = year_upper doe (omega arith) in
    let below = year_below doe (omega arith) in
    let e : year_of_era (doe + 1) ≡ y + 1 =
      year_unique (doe + 1) (y + 1) h (omega arith) (omega arith) (omega arith) in
    let f : doe + 1 - before_year (y + 1) ≡ 0 = omega arith in
    let g : y + 1 + era * 400 ≡ y + era * 400 + 1 = omega arith in
    rw e (
      rw f (
        rw g (
          next_year (y + era * 400) (doe - before_year y)
            (omega (arith, year_length_lem y era below)))))

date_in-suc : (era doe : ℕ) → doe + 1 < 146097 → date_in era (doe + 1) ≡ next_date (date_in era doe)
date_in-suc era doe h =
    elim (dec_lt (doe + 1) (before_year (year_of_era doe + 1) + (year_of_era doe + 1) / 400)) [
      | yes k ↦ same_year era doe h k
      | no k ↦ new_year era doe h (omega arith)
    ]

date_in-era : (era : ℕ) → date_in (era + 1) 0 ≡ next_date (date_in era 146096)
unfolding date_in day_of_year year_of_era
date_in-era era =
    let g : 0 + (era + 1) * 400 ≡ 399 + era * 400 + 1 = omega arith in
    rw g (next_year (399 + era * 400) 365 (omega (arith, year_length_lem 399 era (omega arith))))

civil-date_in : (n : ℕ) → civil n ≡ date_in (era_of (n + 719468)) (doe_of (n + 719468))
unfolding civil date_in of_parts month_of era_of doe_of
civil-date_in n = refl

day_in_era :
    (z : ℕ) → doe_of z + 1 < 146097 → (era_of (z + 1) ≡ era_of z) × (doe_of (z + 1) ≡ doe_of z + 1)
unfolding era_of doe_of
day_in_era z h = (omega arith, omega arith)

day_ends_era :
    (z : ℕ)
    → 146097 ≤ doe_of z + 1
    → (era_of (z + 1) ≡ era_of z + 1) × (doe_of (z + 1) ≡ 0) × (doe_of z ≡ 146096)
unfolding era_of doe_of
day_ends_era z h = (omega arith, omega arith, omega arith)

next_of :
    (z : ℕ) → date_in (era_of (z + 1)) (doe_of (z + 1)) ≡ next_date (date_in (era_of z) (doe_of z))
next_of z = elim (dec_lt (doe_of z + 1) 146097) [
  | yes k ↦ (let (e, f) = day_in_era z k in rw e (rw f (date_in-suc (era_of z) (doe_of z) k)))
  | no k ↦
      (let (e, f, g) = day_ends_era z (omega arith) in rw e (rw f (rw g (date_in-era (era_of z)))))
]

epoch : civil 0 ≡ record { year = 1970; month = 1; day = 1 }
unfolding civil year_of_era day_of_year month_part
epoch = refl

-- The first date is 1 January 1970, and the date of each day is the calendar's next one behind that of
-- the day before.
pub civil_follows :
    (civil 0 ≡ record { year = 1970; month = 1; day = 1 })
    × ((n : ℕ) → civil (n + 1) ≡ next_date (civil n))
civil_follows = (
  epoch,
  λ n.
      let e : n + 1 + 719468 ≡ n + 719468 + 1 = omega arith in
      civil-date_in (n + 1)
      ∙ (ap (λ z. date_in (era_of z) (doe_of z)) e
          ∙ (next_of (n + 719468) ∙ ap next_date (sym (civil-date_in n)))),
)
