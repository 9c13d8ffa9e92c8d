-- ===== src/Scanners/Breakout.antt =====
-- app/scanner/breakout_scanner.py.
use ai_market_scanning_engin.Prelude.{
  ℕ, String, Bool, Option, none, some, List, [], ◌∷◌, if◌then◌else◌, Float, Result, ok, raise,
}
use ai_market_scanning_engin.Settings.{Settings}
use ai_market_scanning_engin.Scanning.Models.{ValidationResult, ScanOutcome, Strategy, unchanged}
use ai_market_scanning_engin.Scanners.Candidate.{Column, Texts}
use ai_market_scanning_engin.Scanners.Contexts.{
  Context, daily_context, Rows, bulk, build_daily, symbol_of, scan_date_of, feature_snapshot_of,
}
use ai_market_scanning_engin.Scanners.Composite.{within_resistance_proximity}
use ai_market_scanning_engin.Scanners.Validator.{
  assertion_error, Field, price_field, ema20_field, ema50_field, ema200_field, adx14_field,
  relative_volume_field, resistance_level_field, require_fields, require_ranges, outcome_of,
  daily_score,
}

abbrev pub required_fields : List Field
required_fields =
    price_field ∷ ema20_field ∷ ema50_field ∷ ema200_field ∷ adx14_field ∷ relative_volume_field
    ∷ resistance_level_field ∷ []

module _ {W : Type 0} ⦃f : Float W⦄ where
  abbrev pub range_checks : List (Field × W × W)
  range_checks =
      (adx14_field, f.lit 0, f.lit 100) ∷ (relative_volume_field, f.lit 0, f.lit 1_000) ∷ []

module _ {D W : Type 0} ⦃f : Float W⦄ ⦃d : Column D W⦄ where
  unfoldable pub breakout_validate : Context D W → Result String ValidationResult
  unfolding require_fields require_ranges
  breakout_validate (daily_context c) =
      let field_check = require_fields c required_fields in
      ok (if field_check.valid then require_ranges c range_checks else field_check)
  breakout_validate _ = raise assertion_error

  module _ (settings : Settings W) where
    abbrev pub breakout_checks : Option D → Option D → D → D → D → D → D → D → List (String × Bool)
    breakout_checks resistance latest price ema20 ema50 ema200 adx14 relative_volume =
        ("price>EMA20", d.above price ema20)
        ∷ ("EMA20>EMA50", d.above ema20 ema50)
        ∷ ("EMA50>EMA200", d.above ema50 ema200)
        ∷ ("ADX>threshold", f.lt settings.scanner_breakout_adx_threshold (d.to_float adx14))
        ∷ (
          "relative_volume>threshold",
          f.lt settings.scanner_breakout_relative_volume_threshold (d.to_float relative_volume),
        )
        ∷ (
          "volume_increasing",
          f.le settings.scanner_breakout_volume_increasing_min_relative_volume
              (d.to_float relative_volume),
        )
        ∷ ("near_resistance", within_resistance_proximity settings resistance latest)
        ∷ []

    unfoldable pub breakout_scan : Context D W → Result String ScanOutcome
    unfolding outcome_of
    breakout_scan (daily_context c) = elim c.price [
      | none ↦ raise assertion_error
      | some price ↦ elim c.features.ema20 [
        | none ↦ raise assertion_error
        | some ema20 ↦ elim c.features.ema50 [
          | none ↦ raise assertion_error
          | some ema50 ↦ elim c.features.ema200 [
            | none ↦ raise assertion_error
            | some ema200 ↦ elim c.features.adx14 [
              | none ↦ raise assertion_error
              | some adx14 ↦ elim c.features.relative_volume [
                | none ↦ raise assertion_error
                | some relative_volume ↦ ok (
                    outcome_of (
                      breakout_checks c.features.resistance_level c.price price ema20 ema50 ema200
                        adx14 relative_volume))
              ]
            ]
          ]
        ]
      ]
    ]
    breakout_scan _ = raise assertion_error

    module _ (texts : Texts) (day : ℕ → ℕ) (rows : Rows D W) where
      unfoldable pub breakout_v1 : Strategy (Context D W) W
      unfolding bulk build_daily scan_date_of feature_snapshot_of breakout_validate breakout_scan
          daily_score
      breakout_v1 = record {
        name = "breakout_v1";
        get_candidate_symbols = λ symbols. symbols;
        context_of = bulk (build_daily rows);
        context_symbol = symbol_of;
        scan_date = scan_date_of day;
        snapshot_of = feature_snapshot_of texts;
        validate = breakout_validate;
        scan = λ c. unchanged c (breakout_scan c);
        score_of = daily_score settings;
      }
