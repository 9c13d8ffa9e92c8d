-- ===== src/Examples/Calendar.antt =====
-- The NSE calendar around the holidays of January 2026; day 20_468 is 15 January.
use ai_market_scanning_engin.Prelude.{
  ℕ, ◌≡◌, ◌≢◌, ◌≤◌, ◌<◌, ◌+◌, refl, ok, raise, true, false, arith, ◌⊎◌,
}
use ai_market_scanning_engin.Calendar.Holidays.{equity, fno}
use ai_market_scanning_engin.Calendar.Trading.{
  is_trading_day, previous_trading_day, next_trading_day, year_not_verified, max_walk_days,
}
use ai_market_scanning_engin.Calendar.Walks.{
  IsOpen, IsClosed, previous_trading_day_nearest, next_trading_day-previous_trading_day,
}
use ai_market_scanning_engin.Calendar.Year.{is_trading_day_segments, walks_total}

back_from_friday : previous_trading_day 20_469 equity ≡ ok 20_467
unfolding previous_trading_day is_trading_day
back_from_friday = refl

friday_trades : IsOpen equity 20_469
unfolding is_trading_day
friday_trades = refl

-- A Saturday of an unverified year is answered; its Friday raises.
unverified_weekend : is_trading_day 20_820 equity ≡ ok false
unfolding is_trading_day
unverified_weekend = refl

unverified_friday : is_trading_day 20_819 equity ≡ raise (year_not_verified 2_027 equity)
unfolding is_trading_day
unverified_friday = refl

previous_trading_day_nearest_example :
    (20_467 < 20_469)
    × (20_469 ≤ 20_467 + max_walk_days)
    × IsOpen equity 20_467
    × ((d : ℕ) → 20_467 < d → d < 20_469 → IsClosed equity d)
previous_trading_day_nearest_example =
    previous_trading_day_nearest equity 20_469 (omega arith) back_from_friday

next_trading_day-previous_trading_day_example : next_trading_day 20_467 equity ≡ ok 20_469
next_trading_day-previous_trading_day_example =
    next_trading_day-previous_trading_day equity 20_469 (omega arith) friday_trades back_from_friday

is_trading_day_segments_example :
    (◌≢◌ {A = ℕ} 20_468 20_468 × (is_trading_day 20_468 equity ≡ is_trading_day 20_468 fno))
    ⊎ (◌≡◌ {A = ℕ} 20_468 20_468
        × (is_trading_day 20_468 equity ≡ ok false)
        × (is_trading_day 20_468 fno ≡ ok true))
is_trading_day_segments_example = is_trading_day_segments 20_468 (omega arith) (omega arith)

walks_total_example :
    ((p : ℕ) × (previous_trading_day 20_470 fno ≡ ok p) × (20_470 ≤ p + 5) × (p ≤ 20_470 + 5))
    × ((p : ℕ) × (next_trading_day 20_470 fno ≡ ok p) × (20_470 ≤ p + 5) × (p ≤ 20_470 + 5))
walks_total_example = walks_total fno 20_470 (omega arith) (omega arith)
