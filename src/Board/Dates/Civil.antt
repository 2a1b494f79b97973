-- ===== src/Board/Dates/Civil.antt =====
-- The day number of the date of a day.
use cicd_squabbler.Prelude.{
  ap, ◌∙◌, ℕ, ◌+◌, ◌-◌, ◌*◌, ◌/◌, ◌%◌, ◌≤◌, ◌<◌, ◌≡◌, refl, arith, ltb, leb, if◌then◌else◌,
}
use cicd_squabbler.Prelude.Int.{pos, ◌-ℤ◌, ◌/ℤ◌, +ℤ-pos, -ℤ-pos, *ℤ-pos, ltb_ℤ-pos}
use cicd_squabbler.Board.Dates.{days_from_civil, civil_from_days}

-- The day of a year of an era, and of a year that starts in March, for a year that is not negative.
abbrev day_of_year : ℕ → ℕ → ℕ
day_of_year m d = (153 * ((m + 9) % 12) + 2) / 5 + d - 1

abbrev day_of_era : ℕ → ℕ → ℕ
day_of_era yoe doy = yoe * 365 + yoe / 4 - yoe / 100 + doy

march_year :
    (y m : ℕ)
    → (if leb m 2
        then pos (y + (if leb m 2 then 1 else 0)) -ℤ pos 1
        else pos (y + (if leb m 2 then 1 else 0)))
      ≡ pos y
unfolding ◌-ℤ◌
march_year y m = ground arith

-- The computation stays among the natural numbers.
days_from_civil-pos :
    (y m d : ℕ)
    → 719468 ≤ y / 400 * 146097 + day_of_era (y - y / 400 * 400) (day_of_year m d)
    → days_from_civil (pos (y + (if leb m 2 then 1 else 0))) m d
      ≡ pos (y / 400 * 146097 + day_of_era (y - y / 400 * 400) (day_of_year m d) - 719468)
unfolding days_from_civil ◌/ℤ◌
days_from_civil-pos y m d h =
    let era = y / 400 in
    let yoe = y - era * 400 in
    let doy = day_of_year m d in
    rw
      (
        march_year y m,
        ltb_ℤ-pos y,
        *ℤ-pos era 400,
        -ℤ-pos y (era * 400) (omega arith),
        *ℤ-pos yoe 365,
        +ℤ-pos (yoe * 365) (yoe / 4),
        -ℤ-pos (yoe * 365 + yoe / 4) (yoe / 100) (omega arith),
        +ℤ-pos (yoe * 365 + yoe / 4 - yoe / 100) doy,
        *ℤ-pos era 146097,
        +ℤ-pos (era * 146097) (day_of_era yoe doy),
        -ℤ-pos (era * 146097 + day_of_era yoe doy) 719468 h,
      )
      refl

abbrev month_of : ℕ → ℕ
month_of mp = if ltb mp 10 then mp + 3 else mp - 9

march_month : (mp : ℕ) → mp ≤ 11 → (month_of mp + 9) % 12 ≡ mp
march_month mp h = ground arith

day_of_year-month_of :
    (doy mp : ℕ)
    → doy ≤ 365
    → mp ≡ (5 * doy + 2) / 153
    → day_of_year (month_of mp) (doy - (153 * mp + 2) / 5 + 1) ≡ doy
day_of_year-month_of doy mp h e = rw (march_month mp (omega arith)) (omega arith)

-- The parts of a date, each given by what determines it.
days_from_civil-parts :
    (days era yoe doy mp : ℕ)
    → yoe ≤ 399
    → doy ≤ 365
    → mp ≡ (5 * doy + 2) / 153
    → days + 719468 ≡ era * 146097 + (yoe * 365 + yoe / 4 - yoe / 100 + doy)
    → days_from_civil
        (pos (yoe + era * 400 + (if leb (month_of mp) 2 then 1 else 0)))
        (month_of mp)
        (doy - (153 * mp + 2) / 5 + 1)
      ≡ pos days
days_from_civil-parts days era yoe doy mp h k e sum =
    let day = day_of_year-month_of doy mp k e in
    days_from_civil-pos (yoe + era * 400) (month_of mp) (doy - (153 * mp + 2) / 5 + 1)
      (rw (day, the_era, the_rest) (omega arith))
    ∙ rw (day, the_era, the_rest) (ap pos (omega arith))
  where
    the_era : (yoe + era * 400) / 400 ≡ era
    the_era = omega arith

    the_rest : yoe + era * 400 - era * 400 ≡ yoe
    the_rest = omega arith

year_parts :
    (doe yoe : ℕ)
    → doe < 146097
    → yoe ≡ (doe - doe / 1460 + doe / 36524 - doe / 146096) / 365
    → (yoe ≤ 399)
      × ((doe - (365 * yoe + yoe / 4 - yoe / 100) ≤ 365) × (365 * yoe + yoe / 4 - yoe / 100 ≤ doe))
year_parts doe yoe h e = (omega arith, (omega arith, omega arith))

-- The date of a day is read back to the day.
pub days_from_civil-civil_from_days :
    (days : ℕ)
    → days_from_civil
        (pos (civil_from_days days).0)
        (civil_from_days days).1.0
        (civil_from_days days).1.1
      ≡ pos days
unfolding civil_from_days
days_from_civil-civil_from_days days =
    let z = days + 719468 in
    let era = z / 146097 in
    let doe = z - era * 146097 in
    let yoe = (doe - doe / 1460 + doe / 36524 - doe / 146096) / 365 in
    let doy = doe - (365 * yoe + yoe / 4 - yoe / 100) in
    let parts = year_parts doe yoe (omega arith) refl in
    days_from_civil-parts days era yoe doy ((5 * doy + 2) / 153) parts.0 parts.1.0 refl
      (omega (arith, parts.1.1))

month_of-bounds : (mp : ℕ) → mp ≤ 11 → (1 ≤ month_of mp) × (month_of mp ≤ 12)
month_of-bounds mp h = (ground arith, ground arith)

-- January and February belong to the next year.
abbrev next_year : ℕ → ℕ
next_year mp = if leb (month_of mp) 2 then 1 else 0

next_year-le : (mp : ℕ) → (10 * next_year mp ≤ mp) × (next_year mp ≤ 1)
next_year-le mp = (ground arith, ground arith)

-- The parts of a date are in their bounds.
pub civil_from_days-valid :
    (days : ℕ)
    → ((1 ≤ (civil_from_days days).1.0) × ((civil_from_days days).1.0 ≤ 12))
      × ((1 ≤ (civil_from_days days).1.1) × ((civil_from_days days).1.1 ≤ 31))
unfolding civil_from_days
civil_from_days-valid days =
    let z = days + 719468 in
    let doe = z - z / 146097 * 146097 in
    let yoe = (doe - doe / 1460 + doe / 36524 - doe / 146096) / 365 in
    let parts = year_parts doe yoe (omega arith) refl in
    let doy = doe - (365 * yoe + yoe / 4 - yoe / 100) in
    (
      month_of-bounds ((5 * doy + 2) / 153) (omega (arith, parts.1.0)),
      (omega arith, omega (arith, parts.1.0)),
    )

-- Up to the end of the year 9999, the year has four digits.
pub civil_from_days-year : (days : ℕ) → days < 2932897 → (civil_from_days days).0 < 10000
unfolding civil_from_days
civil_from_days-year days h =
    let z = days + 719468 in
    let doe = z - z / 146097 * 146097 in
    let yoe = (doe - doe / 1460 + doe / 36524 - doe / 146096) / 365 in
    let parts = year_parts doe yoe (omega arith) refl in
    let mp = (5 * (doe - (365 * yoe + yoe / 4 - yoe / 100)) + 2) / 153 in
    year-lt (z / 146097) yoe mp (doe - (365 * yoe + yoe / 4 - yoe / 100)) (next_year mp)
      (omega (arith, parts.1.1)) parts.0 refl (next_year-le mp).0 (next_year-le mp).1
  where
    year-lt :
        (era yoe mp doy carry : ℕ)
        → era * 146097 + (yoe * 365 + yoe / 4 - yoe / 100 + doy) < 3652365
        → yoe ≤ 399
        → mp ≡ (5 * doy + 2) / 153
        → 10 * carry ≤ mp
        → carry ≤ 1
        → yoe + era * 400 + carry < 10000
    year-lt era yoe mp doy carry a b c d e = omega arith
