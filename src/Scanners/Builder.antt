-- ===== src/Scanners/Builder.antt =====
-- app/candidates/builder.py. What the technical scorer gives for a symbol, what the fundamental scorer gives
-- without data, and the names of the discovery sources are arguments.
use ai_market_scanning_engin.Prelude.{
  ℕ, String, true, ◌&&◌, Option, none, some, List, [], insert, if◌then◌else◌, Float,
}
use ai_market_scanning_engin.Values.{Snapshot, Value, text, nested}
use ai_market_scanning_engin.Settings.{Settings}
use ai_market_scanning_engin.Decision.Models.{Quality, high, medium, low}
use ai_market_scanning_engin.Scanning.Models.{Symbol}
use ai_market_scanning_engin.Scanners.Candidate.{
  Column, Texts, Universe, SetupState, pre_breakout, breakout_confirmed, momentum, StockCandidate,
}
use ai_market_scanning_engin.Scanners.Contexts.{
  DailyFeature, SessionFeature, Context, candidate_context, Rows, close_of,
}
use ai_market_scanning_engin.Scanners.Composite.{rounded_total}

-- What a scorer gives: the score, the completeness of its data, its favourable reasons and its factors.
pub record ScoreResult (S W : Type 0) : Type 0 where
  pub score : S
  pub completeness : W
  pub positive_reasons : List String
  pub risk_flags : List String
  pub factors : Value W

-- what `build_candidate` is given beside the rows
pub record Scorers (W : Type 0) : Type 0 where
  pub technical : ℕ → ScoreResult W W
  pub fundamental : ScoreResult (Option W) W
  pub sources : Symbol → List String
  -- `now_market_time()`
  pub now : ℕ

abbrev pub no_factors : {W : Type 0} → Value W
no_factors = nested true "[]"

module _ {W : Type 0} ⦃f : Float W⦄ where
  unfoldable pub quality_from_score : W → Quality
  quality_from_score score =
      if f.le (f.lit 75) score then high else if f.le (f.lit 55) score then medium else low

  unfoldable pub combine_scores : Settings W → Option W → W → W
  combine_scores settings none technical_score = technical_score
  combine_scores settings (some fundamental_score) technical_score =
      f.add (f.mul fundamental_score settings.overall_fundamental_weight)
        (f.mul technical_score settings.overall_technical_weight)

  -- the state, by how many per cent the price lies above the resistance
  unfoldable pub setup_state_at : Settings W → W → W → W → Option SetupState
  setup_state_at settings pct_above rvol adx =
      let proximity = settings.pre_breakout_proximity_pct in
      if f.le (f.sub (f.lit 0) proximity) pct_above && f.lt pct_above (f.lit 0)
      then some pre_breakout
      else if f.le (f.lit 0) pct_above
          && f.le pct_above proximity
          && f.le settings.fno_momentum_min_rvol rvol
      then some breakout_confirmed
      else if f.lt proximity pct_above && f.le settings.fno_momentum_min_adx adx
      then some momentum
      else none

module _ {D W : Type 0} ⦃f : Float W⦄ ⦃d : Column D W⦄ where
  -- `float(x) if x is not None else 0.0`
  abbrev pub float_or_zero : Option D → W
  float_or_zero none = f.lit 0
  float_or_zero (some x) = d.to_float x

  unfoldable pub detect_setup_state : Settings W → DailyFeature D W → D → Option SetupState
  unfolding setup_state_at
  detect_setup_state settings daily price = elim daily.resistance_level [
    | none ↦ none
    | some resistance ↦
        if d.is_zero resistance
        then none
        else setup_state_at settings
            (f.mul (f.sub (f.div (d.to_float price) (d.to_float resistance)) (f.lit 1)) (f.lit 100))
            (float_or_zero daily.relative_volume) (float_or_zero daily.adx14)
  ]

  -- `snapshot["session_vwap"] = ...` when there is one
  abbrev pub with_vwap : Option (SessionFeature D W) → Snapshot W → Snapshot W
  with_vwap none snapshot = snapshot
  with_vwap (some session) snapshot = elim session.session_vwap [
    | none ↦ snapshot
    | some vwap ↦ insert "session_vwap" (text (d.shown_as vwap)) snapshot
  ]

  module _ (settings : Settings W) (texts : Texts) (scorers : Scorers W) (rows : Rows D W) where
    unfoldable pub stock_candidate :
        Universe → String → Symbol → DailyFeature D W → D → StockCandidate D W
    unfolding combine_scores quality_from_score detect_setup_state rounded_total insert
    stock_candidate universe scanner_name symbol daily price =
        let technical = scorers.technical symbol.id in
        let overall = combine_scores settings scorers.fundamental.score technical.score in
        record {
          symbol = symbol.symbol;
          instrument_type = "EQUITY";
          universe = universe;
          scanner_type = scanner_name;
          price = some price;
          breakout_level = daily.breakout_level;
          support_level = daily.support_level;
          resistance_level = daily.resistance_level;
          fundamental_score = scorers.fundamental.score;
          technical_score = technical.score;
          overall_score = rounded_total overall;
          quality = quality_from_score overall;
          fundamental_reasons = scorers.fundamental.positive_reasons;
          technical_reasons = technical.positive_reasons;
          risk_flags = scorers.fundamental.risk_flags;
          passed_rules = [];
          failed_rules = [];
          data_completeness_pct = scorers.fundamental.completeness;
          technical_data_completeness_pct = technical.completeness;
          setup_state = detect_setup_state settings daily price;
          alert_category = none;
          reason = [];
          timestamp = scorers.now;
          scanner_sources = scorers.sources symbol;
          fundamental_factors = scorers.fundamental.factors;
          technical_factors = technical.factors;
          fundamental_field_sources = no_factors;
          fundamental_status = "PENDING";
          technical_feature_snapshot =
              insert "feature_date" (text (texts.iso daily.date))
                (with_vwap (rows.sessions_by_id symbol.id) daily.columns);
        }

    unfoldable pub build_candidate : Universe → String → Symbol → Option (StockCandidate D W)
    unfolding stock_candidate
    build_candidate universe scanner_name symbol = elim (rows.features_by_id symbol.id) [
      | none ↦ none
      | some daily ↦ elim (close_of (rows.prices_by_id symbol.id)) [
        | none ↦ none
        | some price ↦ some (stock_candidate universe scanner_name symbol daily price)
      ]
    ]

    -- `CandidateScannerBase.build_context`
    unfoldable pub build_context : Universe → String → Symbol → Option (Context D W)
    unfolding build_candidate
    build_context universe scanner_name symbol =
        elim (build_candidate universe scanner_name symbol) [
          | none ↦ none
          | some candidate ↦
              some (candidate_context (record { symbol = symbol; candidate = candidate }))
        ]
