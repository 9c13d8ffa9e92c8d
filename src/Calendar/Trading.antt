-- ===== src/Calendar/Trading.antt =====
-- app/market_calendar/calendar.py, and `is_market_open` of app/data/market_updater.py.
use ai_market_scanning_engin.Prelude.{
  ℕ, zero, suc, ◌+◌, ◌-◌, Bool, true, false, not, ◌&&◌, Option, none, some, List, [], ◌∷◌, ◌==◌,
  leb, if◌then◌else◌, Result, ok, raise, is_some,
}
use ai_market_scanning_engin.Runtime.{Runtime}
use ai_market_scanning_engin.Settings.{Settings}
use ai_market_scanning_engin.Calendar.Dates.{year_of, weekday}
use ai_market_scanning_engin.Calendar.Holidays.{
  MarketSegment, equity, NseHoliday, in_segments, holidays_by_year,
}

-- `CalendarYearNotVerifiedError`, and the `RuntimeError` of a walk that found no trading day.
pub data CalendarError : Type 0 where
  year_not_verified : (year : ℕ) (segment : MarketSegment) → CalendarError
  no_trading_day : (day : ℕ) (segment : MarketSegment) → CalendarError

-- the loop of `get_holiday`
unfoldable pub find_holiday : ℕ → MarketSegment → List NseHoliday → Option NseHoliday
find_holiday day segment [] = none
find_holiday day segment (h ∷ rest) =
    if h.day == day && in_segments segment h.segments then some h else find_holiday day segment rest

unfoldable pub get_holiday : ℕ → MarketSegment → Result CalendarError (Option NseHoliday)
unfolding find_holiday year_of holidays_by_year
get_holiday day segment = elim (holidays_by_year (year_of day)) [
  | none ↦ raise (year_not_verified (year_of day) segment)
  | some holidays ↦ ok (find_holiday day segment holidays)
]

unfoldable pub is_market_holiday : ℕ → MarketSegment → Result CalendarError Bool
unfolding get_holiday
is_market_holiday day segment = elim (get_holiday day segment) [
  | raise e ↦ raise e
  | ok holiday ↦ ok (is_some holiday)
]

unfoldable pub is_trading_day : ℕ → MarketSegment → Result CalendarError Bool
unfolding is_market_holiday weekday
is_trading_day day segment = elim (leb 5 (weekday day)) [
  | true ↦ ok false
  | false ↦ elim (is_market_holiday day segment) [ raise e ↦ raise e | ok b ↦ ok (not b) ]
]

abbrev pub max_walk_days : ℕ
max_walk_days = 30

-- The two loops, with so many rounds to go; `start` is for the error.
module _ (segment : MarketSegment) (start : ℕ) where
  unfoldable pub walk_back : ℕ → ℕ → Result CalendarError ℕ
  walk_back zero cursor = raise (no_trading_day start segment)
  walk_back (suc rounds) cursor = elim (is_trading_day (cursor - 1) segment) [
    | raise e ↦ raise e
    | ok true ↦ ok (cursor - 1)
    | ok false ↦ walk_back rounds (cursor - 1)
  ]

  unfoldable pub walk_on : ℕ → ℕ → Result CalendarError ℕ
  walk_on zero cursor = raise (no_trading_day start segment)
  walk_on (suc rounds) cursor = elim (is_trading_day (cursor + 1) segment) [
    | raise e ↦ raise e
    | ok true ↦ ok (cursor + 1)
    | ok false ↦ walk_on rounds (cursor + 1)
  ]

unfoldable pub previous_trading_day : ℕ → MarketSegment → Result CalendarError ℕ
unfolding walk_back
previous_trading_day day segment = walk_back segment day max_walk_days day

unfoldable pub next_trading_day : ℕ → MarketSegment → Result CalendarError ℕ
unfolding walk_on
next_trading_day day segment = walk_on segment day max_walk_days day

-- `MarketStatusUpdater.is_market_open`; the hours are seconds of the market's day. A year without
-- verified holidays falls back to the weekday and the hours.
unfoldable pub is_market_open : Runtime → {W : Type 0} → Settings W → ℕ → Bool
unfolding weekday
is_market_open rt settings now =
    if leb 5 (weekday (rt.market_date now))
    then false
    else if leb settings.market_open_time (rt.market_time now)
        && leb (rt.market_time now) settings.market_close_time
    then (elim (is_trading_day (rt.market_date now) equity) [ raise e ↦ true | ok b ↦ b ])
    else false
