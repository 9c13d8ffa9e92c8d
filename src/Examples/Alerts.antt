-- ===== src/Examples/Alerts.antt =====
-- A decision processed twice, and the history that it makes.
use ai_market_scanning_engin.Prelude.Floats.{whole_float, Whole}
use ai_market_scanning_engin.Prelude.{ℕ, ◌+◌, ◌≡◌, refl, some, none, arith}
use ai_market_scanning_engin.Runtime.{plain_runtime}
use ai_market_scanning_engin.Examples.Inputs.{defaults, breakout}
use ai_market_scanning_engin.Decision.Models.{high}
use ai_market_scanning_engin.Alerts.Store.{
  AlertStore, get_by_fingerprint, get_most_recent_for_signal,
}
use ai_market_scanning_engin.Alerts.Manager.{
  process_alert, alert_row, check_duplicate, check_cooldown,
}
use ai_market_scanning_engin.Alerts.Outcomes.{Outcome, process_alert-Outcome}
use ai_market_scanning_engin.Alerts.History.{
  empty_store, here, next, process_step, IsSound, Reach-IsSound,
}

abbrev at : ℕ
at = 1_782_900_000

first : AlertStore Whole
first = (process_alert plain_runtime defaults breakout high 7 at at empty_store).0

-- The first call raises alert 1; the second, a minute later, is a duplicate.
raised_once :
    ((process_alert plain_runtime defaults breakout high 7 at at empty_store).1 ≡ some 1)
    × ((process_alert plain_runtime defaults breakout high 7 (at + 60) (at + 60) first).1 ≡ none)
unfolding first process_alert check_duplicate check_cooldown get_by_fingerprint
    get_most_recent_for_signal alert_row
raised_once = (refl, refl)

process_alert-Outcome_example :
    Outcome
      (alert_row plain_runtime defaults breakout high 7 at at)
      empty_store
      (process_alert plain_runtime defaults breakout high 7 at at empty_store)
process_alert-Outcome_example =
    process_alert-Outcome plain_runtime defaults breakout high 7 at at empty_store

Reach-IsSound_example : IsSound plain_runtime defaults first
unfolding first
Reach-IsSound_example =
    Reach-IsSound plain_runtime defaults
      (next here (process_step breakout high 7 at at (omega arith) refl))
