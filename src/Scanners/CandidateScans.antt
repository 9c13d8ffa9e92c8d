-- ===== src/Scanners/CandidateScans.antt =====
-- app/candidates/fno_momentum_scanner.py, pre_breakout_scanner.py and ipo_intraday_scanner.py: the checks
-- and `scan`.
use ai_market_scanning_engin.Prelude.{
  String, Bool, false, ◌&&◌, Option, none, some, List, [], ◌∷◌, if◌then◌else◌, Float, Result, raise,
}
use ai_market_scanning_engin.Settings.{Settings}
use ai_market_scanning_engin.Scanning.Models.{ScanOutcome}
use ai_market_scanning_engin.Scanners.Candidate.{
  Column, ipo_pre_breakout, fno_pre_breakout, StockCandidate,
}
use ai_market_scanning_engin.Scanners.Contexts.{Context, candidate_context}
use ai_market_scanning_engin.Scanners.Validator.{assertion_error}
use ai_market_scanning_engin.Scanners.Candidates.{
  is_ipo, label_candidate, labelled, is_pre_breakout, is_momentum_or_confirmed, has_setup,
  fno_category, ipo_category, at_least, more_than, feature_of, price_of,
}

module _ {W : Type 0} ⦃f : Float W⦄ where
  abbrev pub pct_below_high : Option W → Option W → Option W
  pct_below_high (some high) (some price) =
      if f.lt (f.lit 0) high then some (f.mul (f.div (f.sub high price) high) (f.lit 100)) else none
  pct_below_high _ _ = none

  abbrev pub pct_above_low : Option W → Option W → Option W
  pct_above_low (some low) (some price) =
      if f.lt (f.lit 0) low
      then some (f.mul (f.sub (f.div price low) (f.lit 1)) (f.lit 100))
      else none
  pct_above_low _ _ = none

  -- `x is not None and 0 < x < limit`
  abbrev pub between : W → Option W → Bool
  between limit none = false
  between limit (some x) = f.lt (f.lit 0) x && f.lt x limit

module _ {D W : Type 0} ⦃f : Float W⦄ ⦃d : Column D W⦄ (settings : Settings W) where
  abbrev pub fno_checks : StockCandidate D W → List (String × Bool)
  fno_checks c =
      ("setup_state_is_momentum_or_confirmed", is_momentum_or_confirmed c.setup_state)
      ∷ (
        "relative_volume>=threshold",
        at_least settings.fno_momentum_min_rvol (feature_of c "relative_volume"),
      )
      ∷ ("adx>=threshold", at_least settings.fno_momentum_min_adx (feature_of c "adx14"))
      ∷ ("overall_score>=threshold", f.le settings.fno_momentum_min_score c.overall_score)
      ∷ []

  unfoldable pub fno_scan : Context D W → Result String (ScanOutcome × Context D W)
  unfolding label_candidate
  fno_scan (candidate_context k) =
      labelled k.symbol (
        label_candidate (fno_checks k.candidate) (fno_category k.candidate.setup_state) k.candidate)
  fno_scan _ = raise assertion_error

  abbrev pub pre_breakout_checks : StockCandidate D W → List (String × Bool)
  pre_breakout_checks c =
      ("setup_state_is_pre_breakout", is_pre_breakout c.setup_state)
      ∷ ("overall_score>=threshold", f.le settings.pre_breakout_min_score c.overall_score)
      ∷ []

  unfoldable pub pre_breakout_scan : Context D W → Result String (ScanOutcome × Context D W)
  unfolding label_candidate
  pre_breakout_scan (candidate_context k) = labelled k.symbol (
      label_candidate (pre_breakout_checks k.candidate)
        (if is_ipo k.candidate.universe then ipo_pre_breakout else fno_pre_breakout) k.candidate)
  pre_breakout_scan _ = raise assertion_error

  abbrev pub ipo_checks : StockCandidate D W → List (String × Bool)
  ipo_checks c =
      ("setup_state_is_pre_breakout_confirmed_or_momentum", has_setup c.setup_state)
      ∷ (
        "relative_volume>=threshold",
        at_least settings.ipo_intraday_min_rvol (feature_of c "relative_volume"),
      )
      ∷ ("overall_score>=threshold", f.le settings.ipo_intraday_min_score c.overall_score)
      ∷ (
        "price_within_pct_below_52w_high",
        between settings.ipo_intraday_max_pct_below_52w_high
            (pct_below_high (feature_of c "ipo_52w_high") (price_of c)),
      )
      ∷ (
        "price_above_52w_low_multiple",
        more_than settings.ipo_intraday_min_pct_above_52w_low
            (pct_above_low (feature_of c "ipo_52w_low") (price_of c)),
      )
      ∷ ("price>min_price", more_than settings.ipo_intraday_min_price (price_of c))
      ∷ (
        "volume>min_volume",
        more_than settings.ipo_intraday_min_volume (feature_of c "ipo_latest_volume"),
      )
      ∷ []

  unfoldable pub ipo_scan : Context D W → Result String (ScanOutcome × Context D W)
  unfolding label_candidate
  ipo_scan (candidate_context k) =
      labelled k.symbol (
        label_candidate (ipo_checks k.candidate) (ipo_category k.candidate.setup_state) k.candidate)
  ipo_scan _ = raise assertion_error
