-- ===== src/Momentum/Engine.antt =====
-- app/momentum/momentum_engine.py: one evaluation of a symbol against its stored state, and the alert
-- that an alert-worthy transition raises.
use ai_market_scanning_engin.Prelude.{
  ℕ, String, Option, none, some, [], ◌∷◌, if◌then◌else◌, Float, Result, ok, raise,
}
use ai_market_scanning_engin.Runtime.{Runtime}
use ai_market_scanning_engin.Settings.{Settings}
use ai_market_scanning_engin.Values.{Value, null, text}
use ai_market_scanning_engin.Decision.Models.{DecisionResult, alert, high, medium}
use ai_market_scanning_engin.Alerts.Store.{AlertStore}
use ai_market_scanning_engin.Alerts.Manager.{process_impl, AssertionError}
use ai_market_scanning_engin.Momentum.States.{
  MomentumState, is_alert_worthy, state_value, momentum_scanner_name,
}
use ai_market_scanning_engin.Momentum.Machine.{
  IllegalEdge, evaluate_transition, apply_transition, reason_text,
}
use ai_market_scanning_engin.Momentum.Repository.{
  MomentumStore, StateTransition, get_current, state_of, store_transition,
}

-- The tables that one evaluation works on.
pub record Tables (W : Type 0) : Type 0 where
  pub momentum : MomentumStore W
  pub alerting : AlertStore W

pub record EvaluationResult (W : Type 0) : Type 0 where
  pub transition : Option (StateTransition W)
  pub alert_id : Option ℕ
  pub transition_id : Option ℕ

-- The exceptions that the code itself raises.
pub data EngineError : Type 0 where
  illegal_edge : IllegalEdge → EngineError
  assertion_failed : AssertionError → EngineError

module _ {W : Type 0} where
  abbrev pub no_result : EvaluationResult W
  no_result = record { transition = none; alert_id = none; transition_id = none }

  -- `from_state.value if from_state else None`
  abbrev pub from_value : Option MomentumState → Value W
  unfolding state_value
  from_value none = null
  from_value (some s) = text (state_value s)

module _ (rt : Runtime) {W : Type 0} ⦃f : Float W⦄ (settings : Settings W) where
  unfoldable pub momentum_decision : String → StateTransition W → DecisionResult W
  unfolding state_value reason_text
  momentum_decision symbol t = record {
    symbol = symbol;
    scanner_name = momentum_scanner_name;
    signal_type = state_value t.to_state;
    decision = alert;
    score = t.score;
    quality = some (if f.le settings.alert_high_priority_score t.score then high else medium);
    passed_rules = reason_text t.reason ∷ [];
    failed_rules = [];
    warnings = [];
    feature_snapshot =
        ("momentum_state", text (state_value t.to_state))
        ∷ ("from_state", from_value t.from_state)
        ∷ ("reason", text (reason_text t.reason))
        ∷ ("evidence", t.evidence)
        ∷ ("date", text (rt.iso_of_date (rt.market_date t.timestamp)))
        ∷ [];
    timestamp = t.timestamp;
  }

  -- the end of `evaluate`, behind the commit of the transition
  unfoldable pub raise_alert :
      String
      → StateTransition W
      → ℕ
      → ℕ
      → Tables W
      → Result EngineError (Tables W × EvaluationResult W)
  unfolding momentum_decision process_impl
  raise_alert symbol t transition_id db_now tables =
      if is_alert_worthy t.to_state
      then (elim (process_impl rt settings (momentum_decision symbol t) t.symbol_id t.timestamp
          db_now tables.alerting) [
            | raise e ↦ raise (assertion_failed e)
            | ok (alerting, alert_id) ↦ ok (
              record tables { alerting = alerting },
              record {
                transition = some t;
                alert_id = alert_id;
                transition_id = some transition_id;
              },
            )
          ])
      else ok (
        tables,
        record { transition = some t; alert_id = none; transition_id = some transition_id },
      )

  -- `symbol_row` is what `SymbolRepository.get_by_symbol` finds: the symbol's id.
  unfoldable pub evaluate :
      Option ℕ
      → String
      → W
      → Value W
      → ℕ
      → ℕ
      → Tables W
      → Result EngineError (Tables W × EvaluationResult W)
  evaluate none symbol score evidence moment db_now tables = ok (tables, no_result)
  evaluate (some symbol_id) symbol score evidence moment db_now tables =
      let current = state_of (get_current symbol_id tables.momentum) in
      elim (evaluate_transition current score settings.decision_min_alert_score) [
        | none ↦ ok (tables, no_result)
        | some (next, reason) ↦
            let t : StateTransition W = record {
              symbol_id = symbol_id;
              from_state = current;
              to_state = next;
              timestamp = moment;
              reason = reason;
              score = score;
              evidence = evidence;
            } in
            elim (apply_transition current next) [
              | raise e ↦ raise (illegal_edge e)
              | ok _ ↦
                  let (momentum, transition_id) = store_transition t tables.momentum in
                  raise_alert symbol t transition_id db_now (record tables { momentum = momentum })
            ]
      ]
