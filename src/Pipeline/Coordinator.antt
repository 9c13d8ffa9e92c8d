-- ===== src/Pipeline/Coordinator.antt =====
-- app/decision/momentum_pipeline_coordinator.py: the evaluation of one symbol, the observation of an
-- alert-worthy transition, and the pass over the qualified scanner results.
use ai_market_scanning_engin.Prelude.{
  ℕ, String, Bool, true, false, Option, none, some, List, ◌∷◌, Float, if◌then◌else◌, Result, ok,
  raise, ℤ, pos, negsuc, minus, ltb,
}
use ai_market_scanning_engin.Runtime.{Runtime}
use ai_market_scanning_engin.Settings.{Settings}
use ai_market_scanning_engin.Values.{Value}
use ai_market_scanning_engin.Momentum.States.{MomentumState, is_alert_worthy}
use ai_market_scanning_engin.Momentum.Repository.{
  StateTransition, MomentumStore, get_current, state_of,
}
use ai_market_scanning_engin.Momentum.Engine.{Tables, EvaluationResult, EngineError, evaluate}
use ai_market_scanning_engin.Pipeline.Decide.{PipelineDecisionResult, reject, decide}

-- What is read of a `SignalFusionResult`; `evidence` is the object that the coordinator builds of it.
pub record Fusion (W : Type 0) : Type 0 where
  pub overall_score : Option W
  pub confidence : W
  pub evidence : Value W

-- A row of `momentum_alert_observations`, as it is inserted.
pub record NewObservation (W : Type 0) : Type 0 where
  pub transition_id : ℕ
  pub symbol_id : ℕ
  pub alert_id : Option ℕ
  pub momentum_state : MomentumState
  pub trigger_at : ℕ
  pub signal_score : W
  pub signal_confidence : W
  pub as_of_data_at : Option ℕ
  pub data_age_seconds : Option ℤ
  pub is_stale : Bool
  pub price_at_trigger : Option W

pub record Pipeline (W : Type 0) : Type 0 where
  pub tables : Tables W
  pub observations : List (NewObservation W)

pub data PipelineError : Type 0 where
  fusion_failed : PipelineError
  engine_failed : EngineError → PipelineError

-- The reads that the pipeline makes outside its own tables: a symbol's id, its fusion (`none` where
-- `compute` raises), and its latest intraday bar (its time and close).
pub record Reads (W : Type 0) : Type 0 where
  pub symbol_row : String → Option ℕ
  pub fusion : String → Option (Fusion W)
  pub latest_intraday : ℕ → Option (ℕ × W)

abbrev pub is_older : ℕ → ℤ → Bool
is_older threshold (pos age) = ltb threshold age
is_older threshold (negsuc age) = false

-- the state that a symbol has in the table
abbrev pub standing : {W : Type 0} → Option ℕ → MomentumStore W → Option MomentumState
standing none store = none
standing (some symbol_id) store = state_of (get_current symbol_id store)

module _ {W : Type 0} ⦃f : Float W⦄ (settings : Settings W) (reads : Reads W) where
  abbrev pub observation :
      ℕ → ℕ → Option ℕ → MomentumState → W → W → ℕ → Option (ℕ × W) → NewObservation W
  observation transition_id symbol_id alert_id state score confidence moment none = record {
    transition_id = transition_id;
    symbol_id = symbol_id;
    alert_id = alert_id;
    momentum_state = state;
    trigger_at = moment;
    signal_score = f.round2 score;
    signal_confidence = f.round2 confidence;
    as_of_data_at = none;
    data_age_seconds = none;
    is_stale = false;
    price_at_trigger = none;
  }
  observation transition_id symbol_id alert_id state score confidence moment (some (at, close)) =
      record {
        transition_id = transition_id;
        symbol_id = symbol_id;
        alert_id = alert_id;
        momentum_state = state;
        trigger_at = moment;
        signal_score = f.round2 score;
        signal_confidence = f.round2 confidence;
        as_of_data_at = some at;
        data_age_seconds = some (minus moment at);
        is_stale =
            is_older settings.momentum_observation_stale_data_threshold_seconds (minus moment at);
        price_at_trigger = some close;
      }

  unfoldable pub record_observation :
      String → ℕ → Option ℕ → MomentumState → W → W → ℕ → Pipeline W → Pipeline W
  record_observation symbol transition_id alert_id state score confidence moment p =
      elim (reads.symbol_row symbol) [
        | none ↦ p
        | some symbol_id ↦ record p {
          observations =
              observation transition_id symbol_id alert_id state score confidence moment
                (reads.latest_intraday symbol_id)
              ∷ p.observations;
        }
      ]

  -- the observation that a new transition asks for
  abbrev pub observe :
      String → EvaluationResult W → StateTransition W → W → W → ℕ → Pipeline W → Pipeline W
  observe symbol r t score confidence moment p = elim r.transition_id [
    | none ↦ p
    | some transition_id ↦
        if is_alert_worthy t.to_state
        then record_observation symbol transition_id r.alert_id t.to_state score confidence moment p
        else p
  ]

  abbrev pub decided :
      String → Fusion W → ℕ → Option ℕ → Option MomentumState → PipelineDecisionResult W
  decided symbol fusion moment alert_id state = record {
    symbol = symbol;
    verdict = decide settings fusion.confidence state;
    momentum_state = state;
    signal_score = fusion.overall_score;
    confidence = fusion.confidence;
    alert_id = alert_id;
    timestamp = moment;
  }

  -- behind the evaluation by the momentum engine, which left `tables`
  unfoldable pub conclude :
      String
      → Fusion W
      → W
      → ℕ
      → EvaluationResult W
      → Pipeline W
      → Pipeline W × PipelineDecisionResult W
  unfolding record_observation decide
  conclude symbol fusion score moment r p = elim r.transition [
    | some t ↦ (
      observe symbol r t score fusion.confidence moment p,
      decided symbol fusion moment r.alert_id (some t.to_state),
    )
    | none ↦ (
      p,
      decided symbol fusion moment r.alert_id
          (standing (reads.symbol_row symbol) p.tables.momentum),
    )
  ]

  abbrev pub rejected : String → Fusion W → ℕ → PipelineDecisionResult W
  rejected symbol fusion moment = record {
    symbol = symbol;
    verdict = reject;
    momentum_state = none;
    signal_score = fusion.overall_score;
    confidence = fusion.confidence;
    alert_id = none;
    timestamp = moment;
  }

module _ (rt : Runtime) {W : Type 0} ⦃f : Float W⦄ (settings : Settings W) (reads : Reads W) where
  -- a fusion that has a score, and enough confidence
  unfoldable pub evaluate_scored :
      String
      → Fusion W
      → W
      → ℕ
      → ℕ
      → Pipeline W
      → Result PipelineError (Pipeline W × PipelineDecisionResult W)
  unfolding conclude
  evaluate_scored symbol fusion score moment db_now p =
      elim (evaluate rt settings (reads.symbol_row symbol) symbol score fusion.evidence moment
        db_now p.tables) [
          | raise e ↦ raise (engine_failed e)
          | ok (tables, r) ↦
              ok (
                conclude settings reads symbol fusion score moment r (record p { tables = tables }))
        ]

  unfoldable pub evaluate_fusion :
      String
      → Fusion W
      → ℕ
      → ℕ
      → Pipeline W
      → Result PipelineError (Pipeline W × PipelineDecisionResult W)
  unfolding evaluate_scored
  evaluate_fusion symbol fusion moment db_now p = elim fusion.overall_score [
    | none ↦ ok (p, rejected settings reads symbol fusion moment)
    | some score ↦ elim (f.lt fusion.confidence settings.pipeline_min_confidence_pct) [
      | true ↦ ok (p, rejected settings reads symbol fusion moment)
      | false ↦ evaluate_scored symbol fusion score moment db_now p
    ]
  ]

  unfoldable pub evaluate_one :
      String → ℕ → ℕ → Pipeline W → Result PipelineError (Pipeline W × PipelineDecisionResult W)
  unfolding evaluate_fusion
  evaluate_one symbol moment db_now p = elim (reads.fusion symbol) [
    | none ↦ raise fusion_failed
    | some fusion ↦ evaluate_fusion symbol fusion moment db_now p
  ]
