-- ===== src/Scanners/Vcp.antt =====
-- app/scanner/vcp_scanner.py.
use ai_market_scanning_engin.Prelude.{ℕ, String, [], ◌∷◌, if◌then◌else◌, Float, Result, ok, raise}
use ai_market_scanning_engin.Settings.{Settings}
use ai_market_scanning_engin.Scanning.Models.{ValidationResult, ScanOutcome, Strategy, unchanged}
use ai_market_scanning_engin.Scanners.Candidate.{Column, Texts}
use ai_market_scanning_engin.Scanners.Contexts.{
  Context, daily_context, Rows, bulk, build_daily, symbol_of, scan_date_of, feature_snapshot_of,
}
use ai_market_scanning_engin.Scanners.Validator.{
  assertion_error, price_field, require_fields, daily_score,
}

module _ {D W : Type 0} where
  unfoldable pub vcp_validate : Context D W → Result String ValidationResult
  unfolding require_fields
  vcp_validate (daily_context c) = ok (require_fields c (price_field ∷ []))
  vcp_validate _ = raise assertion_error

  unfoldable pub vcp_scan : Context D W → Result String ScanOutcome
  vcp_scan (daily_context c) = ok (record {
    qualified = c.features.pattern_vcp;
    reason =
        (if c.features.pattern_vcp
          then "volatility contraction pattern detected (each successive 10-bar range tighter than the last)"
          else "no volatility contraction pattern on the latest bar")
        ∷ [];
  })
  vcp_scan _ = raise assertion_error

module _ {D W : Type 0} ⦃f : Float W⦄ ⦃d : Column D W⦄ where
  module _ (settings : Settings W) where
    module _ (texts : Texts) (day : ℕ → ℕ) (rows : Rows D W) where
      unfoldable pub vcp_v1 : Strategy (Context D W) W
      unfolding bulk build_daily scan_date_of feature_snapshot_of vcp_validate vcp_scan daily_score
      vcp_v1 = record {
        name = "vcp_v1";
        get_candidate_symbols = λ symbols. symbols;
        context_of = bulk (build_daily rows);
        context_symbol = symbol_of;
        scan_date = scan_date_of day;
        snapshot_of = feature_snapshot_of texts;
        validate = vcp_validate;
        scan = λ c. unchanged c (vcp_scan c);
        score_of = daily_score settings;
      }
