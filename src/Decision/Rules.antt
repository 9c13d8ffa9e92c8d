-- ===== src/Decision/Rules.antt =====
-- app/decision/rules.py. Each rule gives its status; the texts that describe a result are left out.
use ai_market_scanning_engin.Prelude.{
  ℕ, Bool, true, false, not, ◌&&◌, ◌||◌, String, str_eq, Option, none, some, List, [], ◌∷◌, Float,
  if◌then◌else◌,
}
use ai_market_scanning_engin.Runtime.{Runtime}
use ai_market_scanning_engin.Settings.{Settings}
use ai_market_scanning_engin.Values.{Value, text, get}
use ai_market_scanning_engin.Decision.Models.{DecisionCandidate, RuleStatus, pass, fail, warning}
use ai_market_scanning_engin.Decision.Validator.{missing_features, is_fresh, as_float}
use ai_market_scanning_engin.Calendar.Trading.{is_market_open}

pub data RuleName : Type 0 where
  required_features data_freshness minimum_score trend relative_volume adx resistance_proximity
        market_session :
      RuleName

pub record RuleResult : Type 0 where
  pub rule_name : RuleName
  pub status : RuleStatus

abbrev pub required_feature_keys : List String
required_feature_keys =
    "price" ∷ "ema20" ∷ "ema50" ∷ "ema200" ∷ "adx14" ∷ "relative_volume" ∷ "resistance_level" ∷ []

abbrev pub candidate_required_feature_keys : List String
candidate_required_feature_keys = "price" ∷ "adx14" ∷ "relative_volume" ∷ []

-- `REQUIRED_FEATURES_BY_SCANNER.get(scanner_name, CANDIDATE_REQUIRED_FEATURE_KEYS)`
unfoldable pub required_for : String → List String
required_for scanner =
    if str_eq scanner "breakout_v1" then required_feature_keys else candidate_required_feature_keys

-- `scanner_name in TREND_STACK_SCANNERS`
unfoldable pub uses_trend_stack : String → Bool
uses_trend_stack scanner = str_eq scanner "breakout_v1"

-- `scanner_name in RESISTANCE_PROXIMITY_SCANNERS`
unfoldable pub uses_resistance : String → Bool
uses_resistance scanner = str_eq scanner "breakout_v1" || str_eq scanner "pre_breakout_v1"

abbrev pub pass_if : Bool → RuleStatus
pass_if true = pass
pass_if false = fail

abbrev pub is_empty {ℓ} : {A : Type ℓ} → List A → Bool
is_empty [] = true
is_empty (_ ∷ _) = false

module _ {W : Type 0} where
  unfoldable pub check_required_features : DecisionCandidate W → RuleStatus
  unfolding required_for missing_features
  check_required_features c =
      pass_if (is_empty (missing_features c.feature_snapshot (required_for c.scanner_name)))

  abbrev pub feature_date : Runtime → Value W → Option ℕ
  feature_date rt (text s) = rt.from_iso s
  feature_date rt _ = none

  unfoldable pub effective_freshness_date : Runtime → DecisionCandidate W → ℕ
  unfolding get
  effective_freshness_date rt c = elim (feature_date rt (get "feature_date" c.feature_snapshot)) [
    | none ↦ c.scan_date
    | some d ↦ d
  ]

  -- `now` is the given moment, or the clock's where none is given.
  unfoldable pub check_data_freshness : Runtime → Settings W → DecisionCandidate W → ℕ → RuleStatus
  unfolding effective_freshness_date is_fresh
  check_data_freshness rt settings c now = pass_if (
      is_fresh (effective_freshness_date rt c) settings.decision_max_data_age_days
        (rt.market_date now))

  -- Outside market hours the result is a warning, never a failure.
  unfoldable pub check_market_session : Runtime → Settings W → ℕ → RuleStatus
  unfolding is_market_open
  check_market_session rt settings now = if is_market_open rt settings now then pass else warning

module _ {W : Type 0} ⦃f : Float W⦄ (settings : Settings W) where
  unfoldable pub check_minimum_score : DecisionCandidate W → RuleStatus
  check_minimum_score c = pass_if (f.le settings.decision_min_alert_score c.score)

  -- `ema20 > ema50 > ema200`
  abbrev pub is_stacked : Option W → Option W → Option W → Bool
  is_stacked (some ema20) (some ema50) (some ema200) = f.lt ema50 ema20 && f.lt ema200 ema50
  is_stacked _ _ _ = false

  unfoldable pub check_trend : DecisionCandidate W → RuleStatus
  unfolding uses_trend_stack as_float
  check_trend c =
      if not (uses_trend_stack c.scanner_name)
      then pass
      else pass_if (
          is_stacked (as_float c.feature_snapshot "ema20") (as_float c.feature_snapshot "ema50")
            (as_float c.feature_snapshot "ema200"))

  -- `value >= bound`, where a missing value fails
  abbrev pub reaches : W → Option W → Bool
  reaches bound none = false
  reaches bound (some x) = f.le bound x

  unfoldable pub check_relative_volume : DecisionCandidate W → RuleStatus
  unfolding as_float
  check_relative_volume c =
      pass_if (reaches settings.decision_min_rvol (as_float c.feature_snapshot "relative_volume"))

  unfoldable pub check_adx : DecisionCandidate W → RuleStatus
  unfolding as_float
  check_adx c = pass_if (reaches settings.decision_min_adx (as_float c.feature_snapshot "adx14"))

  -- `abs(price - resistance) / resistance * 100.0 <= limit`, where a zero resistance fails
  abbrev pub is_near : Option W → Option W → Bool
  is_near (some price) (some resistance) =
      if f.le resistance (f.lit 0) && f.le (f.lit 0) resistance
      then false
      else f.le (f.mul (f.div (f.abs (f.sub price resistance)) resistance) (f.lit 100))
          settings.decision_resistance_distance_percent
  is_near _ _ = false

  unfoldable pub check_resistance_proximity : DecisionCandidate W → RuleStatus
  unfolding uses_resistance as_float
  check_resistance_proximity c =
      if not (uses_resistance c.scanner_name)
      then pass
      else pass_if (
          is_near (as_float c.feature_snapshot "price")
            (as_float c.feature_snapshot "resistance_level"))

abbrev pub result : RuleName → RuleStatus → RuleResult
result name status = record { rule_name = name; status = status }

-- `[rule(candidate, settings, now=now) for rule in RULES]`
unfoldable pub run_rules :
    Runtime → {W : Type 0} ⦃f : Float W⦄ → Settings W → DecisionCandidate W → ℕ → List RuleResult
run_rules rt settings c now =
    result required_features (check_required_features c)
    ∷ result data_freshness (check_data_freshness rt settings c now)
    ∷ result minimum_score (check_minimum_score settings c)
    ∷ result trend (check_trend settings c)
    ∷ result relative_volume (check_relative_volume settings c)
    ∷ result adx (check_adx settings c)
    ∷ result resistance_proximity (check_resistance_proximity settings c)
    ∷ result market_session (check_market_session rt settings now)
    ∷ []
