-- ===== src/Calendar/Year.antt =====
-- The verified year, day by day: facts that are checked for every day by evaluation.
use ai_market_scanning_engin.Prelude.{
  ℕ, zero, suc, ◌+◌, ◌≤◌, ◌<◌, ◌≡◌, refl, Bool, true, false, not, ◌==◌, ◌&&◌, arith, Result, ok,
  inl, inr, Bool-cases, raise, ◌≢◌, false≢true, leb, ◌⊎◌,
}
use ai_market_scanning_engin.Calendar.Holidays.{equity, fno, MarketSegment}
use ai_market_scanning_engin.Calendar.Trading.{
  CalendarError, is_trading_day, next_trading_day, previous_trading_day,
}

-- a test of `count` days from the first one on
every_day : (ℕ → Bool) → (first count : ℕ) → Bool
every_day test first zero = true
every_day test first (suc count) = test (first + count) && every_day test first count

every_day_sound :
    (test : ℕ → Bool) (first count day : ℕ)
    → every_day test first count ≡ true
    → first ≤ day
    → day < first + count
    → test day ≡ true
unfolding every_day
every_day_sound test first zero day h lo hi = absurd (omega arith)
every_day_sound test first (suc count) day h lo hi = elim (Bool-cases (day == first + count)) [
  | inl same ↦ let here : day ≡ first + count = ground arith in rw here (ground arith)
  | inr other ↦ every_day_sound test first count day (ground arith) lo (ground arith)
]

-- the answers of the two segments, as the calendar of 2026 has them
agree : Bool → Result CalendarError Bool → Result CalendarError Bool → Bool
agree odd (ok true) (ok true) = not odd
agree odd (ok false) (ok false) = not odd
agree odd (ok false) (ok true) = odd
agree _ _ _ = false

agree_sound :
    (odd : Bool) (a b : Result CalendarError Bool)
    → agree odd a b ≡ true
    → (odd ≡ false → a ≡ b) × (odd ≡ true → (a ≡ ok false) × (b ≡ ok true))
unfolding agree
agree_sound odd (raise e) b h = absurd (false≢true h)
agree_sound odd (ok a) (raise e) h = absurd (ground arith)
agree_sound odd (ok a) (ok b) h = ground arith

agree_table :
    every_day
      (λ day. agree (day == 20_468) (is_trading_day day equity) (is_trading_day day fno))
      20_454
      365
    ≡ true
unfolding every_day agree is_trading_day
agree_table = refl

-- On every day of 2026 (day numbers 20454 to 20818) but 15 January (20468) the calendar answers alike
-- for Equity and F&O; on that day Equity is closed and F&O trades.
pub is_trading_day_segments :
    (day : ℕ)
    → 20_454 ≤ day
    → day ≤ 20_818
    → ((day ≢ 20_468) × (is_trading_day day equity ≡ is_trading_day day fno))
      ⊎ ((day ≡ 20_468)
          × (is_trading_day day equity ≡ ok false)
          × (is_trading_day day fno ≡ ok true))
is_trading_day_segments day lo hi =
    let (same, odd) =
      agree_sound (day == 20_468) (is_trading_day day equity) (is_trading_day day fno)
        (every_day_sound _ 20_454 365 day agree_table lo (omega arith)) in
    elim (Bool-cases (day == 20_468)) [
      | inl e ↦ let (shut, open_) = odd e in inr (ground arith, shut, open_)
      | inr e ↦ inl (ground arith, same e)
    ]

-- a walk ended, and no more than five days away
is_near : ℕ → Result CalendarError ℕ → Bool
is_near day (raise e) = false
is_near day (ok p) = leb day (p + 5) && leb p (day + 5)

is_near_sound :
    (day : ℕ) (r : Result CalendarError ℕ)
    → is_near day r ≡ true
    → (p : ℕ) × (r ≡ ok p) × (day ≤ p + 5) × (p ≤ day + 5)
unfolding is_near
is_near_sound day (raise e) h = absurd (false≢true h)
is_near_sound day (ok p) h = (p, refl, ground arith, ground arith)

back_table :
    every_day
      (λ day.
        is_near day (previous_trading_day day equity) && is_near day (previous_trading_day day fno))
      20_455
      365
    ≡ true
unfolding every_day is_near previous_trading_day is_trading_day
back_table = refl

on_table :
    every_day
      (λ day. is_near day (next_trading_day day equity) && is_near day (next_trading_day day fno))
      20_454
      364
    ≡ true
unfolding every_day is_near next_trading_day is_trading_day
on_table = refl

-- From every day of 2026 but its first and its last (20455 to 20817), for both segments, the walk back
-- and the walk on return a day, never more than five days away: neither error is raised inside the
-- verified year.
pub walks_total :
    (segment : MarketSegment) (day : ℕ)
    → 20_455 ≤ day
    → day ≤ 20_817
    → ((p : ℕ) × (previous_trading_day day segment ≡ ok p) × (day ≤ p + 5) × (p ≤ day + 5))
      × ((p : ℕ) × (next_trading_day day segment ≡ ok p) × (day ≤ p + 5) × (p ≤ day + 5))
walks_total segment day lo hi = (
  is_near_sound day _ (back segment (every_day_sound _ 20_455 365 day back_table lo (omega arith))),
  is_near_sound day _
      (on segment (every_day_sound _ 20_454 364 day on_table (omega arith) (omega arith))),
)
  where
    back :
        (s : MarketSegment)
        → (is_near day (previous_trading_day day equity)
            && is_near day (previous_trading_day day fno))
          ≡ true
        → is_near day (previous_trading_day day s) ≡ true
    back equity h = ground arith
    back fno h = ground arith

    on :
        (s : MarketSegment)
        → (is_near day (next_trading_day day equity) && is_near day (next_trading_day day fno))
          ≡ true
        → is_near day (next_trading_day day s) ≡ true
    on equity h = ground arith
    on fno h = ground arith
