-- ===== src/Examples/Decision.antt =====
-- A breakout candidate with every feature, judged during market hours.
use ai_market_scanning_engin.Prelude.{
  ℕ, String, Option, ◌==◌, ◌+◌, ◌≡◌, ◌⊎◌, refl, some, none, [], ◌∷◌, if◌then◌else◌,
}
use ai_market_scanning_engin.Prelude.Floats.{Whole, whole_float}
use ai_market_scanning_engin.Runtime.{plain_runtime}
use ai_market_scanning_engin.Values.{number}
use ai_market_scanning_engin.Examples.Inputs.{defaults}
use ai_market_scanning_engin.Decision.Models.{
  DecisionCandidate, alert, watch, reject, high, medium, low, DecisionResult,
}
use ai_market_scanning_engin.Alerts.History.{empty_store}
use ai_market_scanning_engin.Decision.Engine.{ScannerResult, run_all, no_candidates}
use ai_market_scanning_engin.Decision.Tallies.{Progress, run_all-Progress}
use ai_market_scanning_engin.Calendar.Trading.{is_trading_day}
use ai_market_scanning_engin.Decision.Rules.{
  check_required_features, check_data_freshness, check_minimum_score, check_trend,
  check_relative_volume, check_adx, check_resistance_proximity, check_market_session,
}
use ai_market_scanning_engin.Decision.Evaluator.{evaluate}
use ai_market_scanning_engin.Decision.Verdicts.{TrustsData, Qualifies, evaluate_verdict}

abbrev candidate : DecisionCandidate Whole
candidate = record {
  symbol = "TCS";
  scanner_name = "breakout_v1";
  signal_type = "BREAKOUT";
  score = some 92;
  scan_date = 20_469;
  feature_snapshot =
      ("price", number (some 3900))
      ∷ ("ema20", number (some 3800))
      ∷ ("ema50", number (some 3700))
      ∷ ("ema200", number (some 3300))
      ∷ ("adx14", number (some 31))
      ∷ ("relative_volume", number (some 3))
      ∷ ("resistance_level", number (some 3890))
      ∷ [];
}

-- 11:00 of Friday 16 January 2026
abbrev friday : ℕ
friday = 1_768_561_200

abbrev judged : DecisionResult Whole
judged = evaluate plain_runtime defaults candidate friday

candidate_alerts : judged.decision ≡ alert
unfolding evaluate check_required_features check_data_freshness check_minimum_score check_trend
    check_relative_volume check_adx check_resistance_proximity check_market_session is_trading_day
candidate_alerts = refl

evaluate_verdict_example :
    (¬ TrustsData plain_runtime defaults candidate friday
      × (judged.decision ≡ reject)
      × (judged.quality ≡ none))
    ⊎ (TrustsData plain_runtime defaults candidate friday
        × Qualifies plain_runtime defaults candidate friday
        × (judged.decision ≡ alert)
        × (judged.quality ≡ some (if whole_float.le (some 90) (some 92) then high else medium)))
    ⊎ (TrustsData plain_runtime defaults candidate friday
        × ¬ Qualifies plain_runtime defaults candidate friday
        × (judged.decision ≡ watch)
        × (judged.quality ≡ some low))
evaluate_verdict_example = evaluate_verdict plain_runtime defaults candidate friday

abbrev row : ScannerResult Whole
row = record {
  symbol_id = 7;
  scanner_name = "breakout_v1";
  score = some 92;
  date = 20_469;
  feature_snapshot = candidate.feature_snapshot;
}

abbrev unknown_row : ScannerResult Whole
unknown_row = record row { symbol_id = 8 }

abbrev names : ℕ → Option String
names id = if id == 7 then some "TCS" else none

abbrev clock : ℕ → ℕ
clock id = friday + id

run_all-Progress_example :
    Progress 2
      (record { store = empty_store; result = no_candidates })
      (run_all plain_runtime defaults names clock friday (row ∷ unknown_row ∷ row ∷ []) empty_store)
run_all-Progress_example =
    run_all-Progress plain_runtime defaults names clock friday (row ∷ unknown_row ∷ row ∷ [])
      empty_store
