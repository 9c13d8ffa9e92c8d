-- ===== src/Calendar/Walks.antt =====
-- app/market_calendar/calendar.py: the two walks over days.
use ai_market_scanning_engin.Prelude.{
  ℕ, zero, suc, ◌+◌, ◌-◌, ◌≤◌, ◌<◌, ◌≡◌, refl, Bool, true, false, ◌==◌, arith, Result, ok, raise,
  ◌⊎◌, inl, inr, Bool-cases, ap,
}
use ai_market_scanning_engin.Calendar.Holidays.{MarketSegment}
use ai_market_scanning_engin.Calendar.Trading.{
  CalendarError, is_trading_day, walk_back, walk_on, previous_trading_day, next_trading_day,
  max_walk_days,
}

abbrev pub IsOpen : MarketSegment → ℕ → Type 0
IsOpen segment day = is_trading_day day segment ≡ ok true

abbrev pub IsClosed : MarketSegment → ℕ → Type 0
IsClosed segment day = is_trading_day day segment ≡ ok false

answer_cases :
    (r : Result CalendarError Bool)
    → ((e : CalendarError) × (r ≡ raise e)) ⊎ ((r ≡ ok true) ⊎ (r ≡ ok false))
answer_cases (raise e) = inl (e, refl)
answer_cases (ok true) = inr (inl refl)
answer_cases (ok false) = inr (inr refl)

module _ (segment : MarketSegment) where
  walk_back_nearest :
      (start rounds cursor : ℕ) {p : ℕ}
      → rounds ≤ cursor
      → walk_back segment start rounds cursor ≡ ok p
      → (p < cursor)
        × (cursor ≤ p + rounds)
        × IsOpen segment p
        × ((d : ℕ) → p < d → d < cursor → IsClosed segment d)
  unfolding walk_back
  walk_back_nearest start zero cursor le e = cc
  walk_back_nearest start (suc rounds) cursor {p} le e =
      elim (answer_cases (is_trading_day (cursor - 1) segment)) [
        | inl (x, q) ↦ absurd (ground arith)
        | inr (inl q) ↦
            let here : p ≡ cursor - 1 = ground arith in
            (omega arith, omega arith, rw here q, λ d lo hi. absurd (omega arith))
        | inr (inr q) ↦
            let (before, near, open_p, rest) =
              walk_back_nearest start rounds (cursor - 1) {p = p} (omega arith) (ground arith) in
            (
              omega arith,
              omega arith,
              open_p,
              λ d lo hi. elim (Bool-cases (d == cursor - 1)) [
                | inl same ↦ let is : d ≡ cursor - 1 = ground arith in rw is q
                | inr other ↦ rest d lo (ground arith)
              ],
            )
      ]

  -- The day that `previous_trading_day` returns is the nearest one before the given day: the segment
  -- trades on it, on none of the days between, and it is at most 30 days back. (Days are counted from
  -- 1970; the given one lies at least 30 days after that.)
  pub previous_trading_day_nearest :
      (day : ℕ) {p : ℕ}
      → max_walk_days ≤ day
      → previous_trading_day day segment ≡ ok p
      → (p < day)
        × (day ≤ p + max_walk_days)
        × IsOpen segment p
        × ((d : ℕ) → p < d → d < day → IsClosed segment d)
  unfolding previous_trading_day
  previous_trading_day_nearest day le e = walk_back_nearest day max_walk_days day le e

  walk_on_reaches :
      (start rounds cursor target : ℕ)
      → cursor < target
      → target ≤ cursor + rounds
      → IsOpen segment target
      → ((d : ℕ) → cursor < d → d < target → IsClosed segment d)
      → walk_on segment start rounds cursor ≡ ok target
  unfolding walk_on
  walk_on_reaches start zero cursor target lt le is_open shut = absurd (omega arith)
  walk_on_reaches start (suc rounds) cursor target lt le is_open shut =
      elim (Bool-cases (cursor + 1 == target)) [
        | inl same ↦
            let here : cursor + 1 ≡ target = ground arith in
            let q : is_trading_day (cursor + 1) segment ≡ ok true = rw here is_open in
            rw (q, walk_on) (ap ok here)
        | inr other ↦
            let q : IsClosed segment (cursor + 1) =
              shut (cursor + 1) (omega arith) (ground arith) in
            rw (q, walk_on)
              (walk_on_reaches start rounds (cursor + 1) target (ground arith) (omega arith) is_open
                λ d lo hi. shut d (omega arith) hi)
      ]

  -- From the trading day before a trading day, `next_trading_day` leads back to it.
  pub next_trading_day-previous_trading_day :
      (day : ℕ) {p : ℕ}
      → max_walk_days ≤ day
      → IsOpen segment day
      → previous_trading_day day segment ≡ ok p
      → next_trading_day p segment ≡ ok day
  unfolding next_trading_day
  next_trading_day-previous_trading_day day {p} le is_open e =
      let (before, near, open_p, shut) = previous_trading_day_nearest day le e in
      walk_on_reaches p max_walk_days p day before near is_open shut
