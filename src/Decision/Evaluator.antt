-- ===== src/Decision/Evaluator.antt =====
-- app/decision/evaluator.py.
use ai_market_scanning_engin.Prelude.{
  ℕ, Bool, true, false, not, ◌&&◌, ◌||◌, ◌==◌, String, Option, none, some, List, [], ◌∷◌, Float,
  if◌then◌else◌, map,
}
use ai_market_scanning_engin.Runtime.{Runtime}
use ai_market_scanning_engin.Settings.{Settings}
use ai_market_scanning_engin.Decision.Models.{
  Decision, alert, watch, reject, Quality, high, medium, low, DecisionCandidate, DecisionResult,
  RuleStatus, pass, fail, warning,
}
use ai_market_scanning_engin.Decision.Rules.{
  RuleName, RuleResult, required_features, data_freshness, minimum_score, trend, relative_volume,
  adx, resistance_proximity, market_session, run_rules,
}

abbrev pub name_text : RuleName → String
name_text required_features = "required_features"
name_text data_freshness = "data_freshness"
name_text minimum_score = "minimum_score"
name_text trend = "trend"
name_text relative_volume = "relative_volume"
name_text adx = "adx"
name_text resistance_proximity = "resistance_proximity"
name_text market_session = "market_session"

abbrev pub name_index : RuleName → ℕ
name_index required_features = 0
name_index data_freshness = 1
name_index minimum_score = 2
name_index trend = 3
name_index relative_volume = 4
name_index adx = 5
name_index resistance_proximity = 6
name_index market_session = 7

abbrev pub status_eq : RuleStatus → RuleStatus → Bool
status_eq pass pass = true
status_eq fail fail = true
status_eq warning warning = true
status_eq _ _ = false

-- `[r.rule_name for r in rule_results if r.status == status]`
unfoldable pub with_status : RuleStatus → List RuleResult → List RuleName
with_status status [] = []
with_status status (r ∷ rest) =
    let names = with_status status rest in
    if status_eq r.status status then r.rule_name ∷ names else names

-- `name in names`
unfoldable pub has_name : RuleName → List RuleName → Bool
has_name n [] = false
has_name n (m ∷ rest) = name_index m == name_index n || has_name n rest

abbrev pub data_quality_rules : List RuleName
data_quality_rules = required_features ∷ data_freshness ∷ []

abbrev pub core_alert_rules : List RuleName
core_alert_rules = minimum_score ∷ trend ∷ relative_volume ∷ adx ∷ resistance_proximity ∷ []

-- `any(name in names for name in wanted)`, and `wanted.issubset(set(names))`
unfoldable pub any_in : List RuleName → List RuleName → Bool
unfolding has_name
any_in [] names = false
any_in (w ∷ wanted) names = has_name w names || any_in wanted names

unfoldable pub all_in : List RuleName → List RuleName → Bool
unfolding has_name
all_in [] names = true
all_in (w ∷ wanted) names = has_name w names && all_in wanted names

module _ {W : Type 0} ⦃f : Float W⦄ where
  -- the verdict on a list of rule results, with its quality
  unfoldable pub verdict : Settings W → W → List RuleResult → Decision × Option Quality
  unfolding with_status any_in all_in has_name
  verdict settings score results =
      if any_in data_quality_rules (with_status fail results)
      then (reject, none)
      else if all_in core_alert_rules (with_status pass results)
          && not (has_name market_session (with_status warning results))
      then (alert, some (if f.le settings.alert_high_priority_score score then high else medium))
      else (watch, some low)

  unfoldable pub evaluate : Runtime → Settings W → DecisionCandidate W → ℕ → DecisionResult W
  unfolding verdict run_rules with_status
  evaluate rt settings c now =
      let results = run_rules rt settings c now in
      let v = verdict settings c.score results in
      record {
        symbol = c.symbol;
        scanner_name = c.scanner_name;
        signal_type = c.signal_type;
        decision = v.0;
        score = c.score;
        quality = v.1;
        passed_rules = map name_text (with_status pass results);
        failed_rules = map name_text (with_status fail results);
        warnings = map name_text (with_status warning results);
        feature_snapshot = c.feature_snapshot;
        timestamp = now;
      }
