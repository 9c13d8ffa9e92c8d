-- ===== src/Scanners/Candidate.antt =====
-- app/candidates/models.py. The lists of factors and sources are kept as the JSON values that the snapshot
-- has of them, and a reason as its parts.
use ai_market_scanning_engin.Prelude.{
  ℕ, String, Bool, true, false, Option, none, some, List, [], ◌∷◌, insert,
}
use ai_market_scanning_engin.Values.{Snapshot, Value, null, number, text, nested}
use ai_market_scanning_engin.Decision.Models.{Quality, high, medium, low}
use ai_market_scanning_engin.Scanning.Models.{Symbol}

-- `Decimal` columns: comparison, `== 0`, `float(x)` and `str(x)`. A comparison with a NaN, which raises, is not
-- modelled: the checks on data and features keep a NaN out of the tables.
pub record Column (D W : Type 0) : Type 0 where
  pub above : D → D → Bool
  pub is_zero : D → Bool
  pub to_float : D → W
  pub shown_as : D → String

-- `date.isoformat()`, the text of a reason by its parts, and the text of a list.
pub record Texts : Type 0 where
  pub iso : ℕ → String
  pub joined : List String → String
  pub list_text : List String → String

pub data Universe : Type 0 where
  ipo_universe fno_universe listed_universe : Universe

pub data SetupState : Type 0 where
  pre_breakout breakout_confirmed momentum : SetupState

pub data AlertCategory : Type 0 where
  ipo_pre_breakout ipo_breakout ipo_momentum fno_pre_breakout fno_breakout fno_momentum :
      AlertCategory

abbrev pub universe_value : Universe → String
universe_value ipo_universe = "IPO"
universe_value fno_universe = "FNO"
universe_value listed_universe = "LISTED"

abbrev pub setup_state_value : SetupState → String
setup_state_value pre_breakout = "PRE_BREAKOUT"
setup_state_value breakout_confirmed = "BREAKOUT_CONFIRMED"
setup_state_value momentum = "MOMENTUM"

abbrev pub category_value : AlertCategory → String
category_value ipo_pre_breakout = "IPO_PRE_BREAKOUT"
category_value ipo_breakout = "IPO_BREAKOUT"
category_value ipo_momentum = "IPO_MOMENTUM"
category_value fno_pre_breakout = "FNO_PRE_BREAKOUT"
category_value fno_breakout = "FNO_BREAKOUT"
category_value fno_momentum = "FNO_MOMENTUM"

abbrev pub quality_value : Quality → String
quality_value high = "HIGH"
quality_value medium = "MEDIUM"
quality_value low = "LOW"

pub record StockCandidate (D W : Type 0) : Type 0 where
  pub symbol : String
  pub instrument_type : String
  pub universe : Universe
  pub scanner_type : String
  pub price : Option D
  pub breakout_level : Option D
  pub support_level : Option D
  pub resistance_level : Option D
  pub fundamental_score : Option W
  pub technical_score : W
  pub overall_score : W
  pub quality : Quality
  pub fundamental_reasons : List String
  pub technical_reasons : List String
  pub risk_flags : List String
  pub passed_rules : List String
  pub failed_rules : List String
  pub data_completeness_pct : W
  pub technical_data_completeness_pct : W
  pub setup_state : Option SetupState
  pub alert_category : Option AlertCategory
  pub reason : List String
  pub timestamp : ℕ
  pub scanner_sources : List String
  pub fundamental_factors : Value W
  pub technical_factors : Value W
  pub fundamental_field_sources : Value W
  pub fundamental_status : String
  pub technical_feature_snapshot : Snapshot W

pub record CandidateContext (D W : Type 0) : Type 0 where
  pub symbol : Symbol
  pub candidate : StockCandidate D W

module _ {W : Type 0} where
  abbrev pub list_value : Texts → List String → Value W
  list_value texts [] = nested true (texts.list_text [])
  list_value texts (x ∷ xs) = nested false (texts.list_text (x ∷ xs))

  abbrev pub number_or_null : Option W → Value W
  number_or_null none = null
  number_or_null (some x) = number x

  -- `x.value if x else None`
  abbrev pub value_or_null {ℓ} : {A : Type ℓ} → (A → String) → Option A → Value W
  value_or_null shown none = null
  value_or_null shown (some x) = text (shown x)

  -- `snapshot.update(entries)`
  unfoldable pub update : List (String × Value W) → Snapshot W → Snapshot W
  unfolding insert
  update [] snapshot = snapshot
  update ((key, value) ∷ rest) snapshot = update rest (insert key value snapshot)

module _ {D W : Type 0} ⦃d : Column D W⦄ where
  -- `_decimal_str`
  abbrev pub text_or_null : Option D → Value W
  text_or_null none = null
  text_or_null (some x) = text (d.shown_as x)

  abbrev pub candidate_entries : Texts → StockCandidate D W → List (String × Value W)
  candidate_entries texts c =
      ("price", text_or_null c.price)
      ∷ ("breakout_level", text_or_null c.breakout_level)
      ∷ ("support_level", text_or_null c.support_level)
      ∷ ("resistance_level", text_or_null c.resistance_level)
      ∷ ("instrument_type", text c.instrument_type)
      ∷ ("universe", text (universe_value c.universe))
      ∷ ("scanner_type", text c.scanner_type)
      ∷ ("fundamental_score", number_or_null c.fundamental_score)
      ∷ ("technical_score", number c.technical_score)
      ∷ ("overall_score", number c.overall_score)
      ∷ ("quality", text (quality_value c.quality))
      ∷ ("scanner_sources", list_value texts c.scanner_sources)
      ∷ ("fundamental_reasons", list_value texts c.fundamental_reasons)
      ∷ ("technical_reasons", list_value texts c.technical_reasons)
      ∷ ("fundamental_factors", c.fundamental_factors)
      ∷ ("technical_factors", c.technical_factors)
      ∷ ("fundamental_field_sources", c.fundamental_field_sources)
      ∷ ("fundamental_status", text c.fundamental_status)
      ∷ ("risk_flags", list_value texts c.risk_flags)
      ∷ ("data_completeness_pct", number c.data_completeness_pct)
      ∷ ("technical_data_completeness_pct", number c.technical_data_completeness_pct)
      ∷ ("setup_state", value_or_null setup_state_value c.setup_state)
      ∷ ("alert_category", value_or_null category_value c.alert_category)
      ∷ ("passed_rules", list_value texts c.passed_rules)
      ∷ ("failed_rules", list_value texts c.failed_rules)
      ∷ ("reason", text (texts.joined c.reason))
      ∷ []

  unfoldable pub to_feature_snapshot : Texts → StockCandidate D W → Snapshot W
  unfolding update
  to_feature_snapshot texts c = update (candidate_entries texts c) c.technical_feature_snapshot
