-- ===== src/Calendar/Dates.antt =====
-- A `date` is its day number, counted from 1970-01-01. What Python's `datetime.date` gives of it: the
-- constructor, the year, and the weekday.
use ai_market_scanning_engin.Prelude.{ℕ, ◌+◌, ◌-◌, ◌*◌, ◌/◌, ◌%◌, ◌≡◌, refl, if◌then◌else◌, ltb}

-- `date(year, month, day)`: the years are counted from March, so that the leap day comes last.
unfoldable pub date : (year month day : ℕ) → ℕ
date year month day =
    let y = if ltb 2 month then year else year - 1 in
    let m = if ltb 2 month then month - 3 else month + 9 in
    365 * y + y / 4 - y / 100 + y / 400 + (153 * m + 2) / 5 + (day - 1) - 719_468

-- `day.year`
unfoldable pub year_of : ℕ → ℕ
year_of day =
    let z = day + 719_468 in
    let day_of_era = z % 146_097 in
    let year_of_era =
      (day_of_era - day_of_era / 1460 + day_of_era / 36_524 - day_of_era / 146_096) / 365 in
    let day_of_year = day_of_era + year_of_era / 100 - (365 * year_of_era + year_of_era / 4) in
    let year = year_of_era + z / 146_097 * 400 in if ltb day_of_year 306 then year else year + 1

-- `day.weekday()`: Monday is 0, and day 0 is a Thursday.
unfoldable pub weekday : ℕ → ℕ
weekday day = (day + 3) % 7

-- Known dates.
new_year : (date 2026 1 1 ≡ 20_454) × (year_of 20_454 ≡ 2026) × (year_of 20_453 ≡ 2025)
unfolding date year_of
new_year = (refl, refl, refl)

leap_day : (date 2028 2 29 ≡ 21_243) × (date 2028 3 1 ≡ 21_244) × (weekday (date 2026 7 6) ≡ 0)
unfolding date weekday
leap_day = (refl, refl, refl)
