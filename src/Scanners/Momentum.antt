-- ===== src/Scanners/Momentum.antt =====
-- app/scanner/momentum_scanner.py.
use ai_market_scanning_engin.Prelude.{
  ℕ, String, none, some, [], ◌∷◌, if◌then◌else◌, Float, Result, ok, raise,
}
use ai_market_scanning_engin.Settings.{Settings}
use ai_market_scanning_engin.Scanning.Models.{ValidationResult, ScanOutcome, Strategy, unchanged}
use ai_market_scanning_engin.Scanners.Candidate.{Column, Texts}
use ai_market_scanning_engin.Scanners.Contexts.{
  Context, daily_context, Rows, bulk, build_daily, symbol_of, scan_date_of, feature_snapshot_of,
}
use ai_market_scanning_engin.Scanners.Validator.{
  assertion_error, momentum_score_field, require_fields, daily_score,
}

module _ {D W : Type 0} where
  unfoldable pub momentum_validate : Context D W → Result String ValidationResult
  unfolding require_fields
  momentum_validate (daily_context c) = ok (require_fields c (momentum_score_field ∷ []))
  momentum_validate _ = raise assertion_error

module _ {D W : Type 0} ⦃f : Float W⦄ ⦃d : Column D W⦄ where
  module _ (settings : Settings W) where
    unfoldable pub momentum_scan : Context D W → Result String ScanOutcome
    momentum_scan (daily_context c) = elim c.features.momentum_score [
      | none ↦ raise assertion_error
      | some momentum_score ↦
          let reached = f.le settings.scanner_momentum_min_score (d.to_float momentum_score) in
          ok (record {
            qualified = reached;
            reason = "momentum_score" ∷ (if reached then " >= " else " < ") ∷ "threshold" ∷ [];
          })
    ]
    momentum_scan _ = raise assertion_error

    module _ (texts : Texts) (day : ℕ → ℕ) (rows : Rows D W) where
      unfoldable pub momentum_v1 : Strategy (Context D W) W
      unfolding bulk build_daily scan_date_of feature_snapshot_of momentum_validate momentum_scan
          daily_score
      momentum_v1 = record {
        name = "momentum_v1";
        get_candidate_symbols = λ symbols. symbols;
        context_of = bulk (build_daily rows);
        context_symbol = symbol_of;
        scan_date = scan_date_of day;
        snapshot_of = feature_snapshot_of texts;
        validate = momentum_validate;
        scan = λ c. unchanged c (momentum_scan c);
        score_of = daily_score settings;
      }
