-- ===== src/Decision/Models.antt =====
-- app/decision/models.py: verdicts, qualities, rule results, and one candidate's decision.
use ai_market_scanning_engin.Prelude.{ℕ, String, Option, List}
use ai_market_scanning_engin.Runtime.{Runtime}
use ai_market_scanning_engin.Values.{Snapshot}

pub data Decision : Type 0 where
  alert watch reject : Decision

pub data Quality : Type 0 where
  high medium low : Quality

pub data RuleStatus : Type 0 where
  pass fail warning : RuleStatus

pub record DecisionCandidate (W : Type 0) : Type 0 where
  pub symbol : String
  pub scanner_name : String
  pub signal_type : String
  pub score : W
  pub scan_date : ℕ
  pub feature_snapshot : Snapshot W

pub record DecisionResult (W : Type 0) : Type 0 where
  pub symbol : String
  pub scanner_name : String
  pub signal_type : String
  pub decision : Decision
  pub score : W
  pub quality : Option Quality
  pub passed_rules : List String
  pub failed_rules : List String
  pub warnings : List String
  pub feature_snapshot : Snapshot W
  pub timestamp : ℕ

unfoldable pub derive_signal_type : Runtime → String → String
derive_signal_type rt scanner_name = rt.upper (rt.before scanner_name "_v")
