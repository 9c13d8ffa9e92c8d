-- ===== src/Scanners/Orb.antt =====
-- app/scanner/orb_scanner.py.
use ai_market_scanning_engin.Prelude.{
  ℕ, String, true, false, ◌==◌, none, some, [], ◌∷◌, if◌then◌else◌, Float, Result, ok, raise,
}
use ai_market_scanning_engin.Settings.{Settings}
use ai_market_scanning_engin.Scanning.Models.{ValidationResult, ScanOutcome, Strategy, unchanged}
use ai_market_scanning_engin.Scanners.Candidate.{Column, Texts}
use ai_market_scanning_engin.Scanners.Contexts.{
  Context, orb_context, Rows, close_of, bulk, build_orb, symbol_of, scan_date_of,
  feature_snapshot_of,
}
use ai_market_scanning_engin.Scanners.Composite.{rounded_total, orb_total}
use ai_market_scanning_engin.Scanners.Validator.{assertion_error, passed}

abbrev refused : String → ValidationResult
refused reason = record { valid = false; reason = reason ∷ [] }

module _ {D W : Type 0} where
  unfoldable pub orb_validate : Context D W → Result String ValidationResult
  orb_validate (orb_context c) = ok (elim c.latest_price [
    | none ↦ refused "missing required field: price"
    | some (price, price_date) ↦ elim c.session_feature.opening_range_high [
      | none ↦ refused "opening range not yet available for this session"
      | some high ↦ elim c.session_feature.opening_range_low [
        | none ↦ refused "opening range not yet available for this session"
        | some low ↦
            if price_date == c.session_feature.date
            then passed
            else refused "price and opening range are not from the same trading day"
      ]
    ]
  ])
  orb_validate _ = raise assertion_error

module _ {D W : Type 0} ⦃f : Float W⦄ ⦃d : Column D W⦄ where
  unfoldable pub orb_scan : Context D W → Result String ScanOutcome
  orb_scan (orb_context c) = elim c.latest_price [
    | none ↦ raise assertion_error
    | some (price, price_date) ↦ elim c.session_feature.opening_range_high [
      | none ↦ raise assertion_error
      | some high ↦ elim c.session_feature.opening_range_low [
        | none ↦ raise assertion_error
        | some low ↦ ok (
            if d.above price high
            then record {
              qualified = true;
              reason = "price above opening_range_high (bullish ORB)" ∷ [];
            }
            else if d.above low price
            then record {
              qualified = true;
              reason = "price below opening_range_low (bearish ORB)" ∷ [];
            }
            else record { qualified = false; reason = "price within opening range" ∷ [] })
      ]
    ]
  ]
  orb_scan _ = raise assertion_error

  module _ (settings : Settings W) where
    unfoldable pub orb_score : Context D W → Result String W
    unfolding rounded_total orb_total
    orb_score (orb_context c) =
        ok (rounded_total (orb_total settings c.daily_feature (close_of c.latest_price)))
    orb_score _ = raise assertion_error

    module _ (texts : Texts) (day : ℕ → ℕ) (rows : Rows D W) where
      unfoldable pub orb_v1 : Strategy (Context D W) W
      unfolding bulk build_orb scan_date_of feature_snapshot_of orb_validate orb_scan orb_score
      orb_v1 = record {
        name = "orb_v1";
        get_candidate_symbols = λ symbols. symbols;
        context_of = bulk (build_orb rows);
        context_symbol = symbol_of;
        scan_date = scan_date_of day;
        snapshot_of = feature_snapshot_of texts;
        validate = orb_validate;
        scan = λ c. unchanged c (orb_scan c);
        score_of = orb_score;
      }
