-- ===== src/Pipeline/Decide.antt =====
-- app/decision/momentum_decision_engine.py and momentum_decision_models.py. The reason's text is left
-- out.
use ai_market_scanning_engin.Prelude.{
  ℕ, String, Bool, true, false, Option, none, some, Float, if◌then◌else◌,
}
use ai_market_scanning_engin.Settings.{Settings}
use ai_market_scanning_engin.Momentum.States.{
  MomentumState, exhausted, invalidated, is_alert_worthy,
}

pub data PipelineVerdict : Type 0 where
  trigger watch reject invalidate : PipelineVerdict

pub record PipelineDecisionResult (W : Type 0) : Type 0 where
  pub symbol : String
  pub verdict : PipelineVerdict
  pub momentum_state : Option MomentumState
  pub signal_score : Option W
  pub confidence : W
  pub alert_id : Option ℕ
  pub timestamp : ℕ

-- `_INVALIDATED_STATES`
abbrev pub is_invalidated : MomentumState → Bool
is_invalidated exhausted = true
is_invalidated invalidated = true
is_invalidated _ = false

-- the verdict on a state, where the confidence is enough
abbrev pub label : MomentumState → PipelineVerdict
label s = if is_alert_worthy s then trigger else if is_invalidated s then invalidate else watch

unfoldable pub decide :
    {W : Type 0} ⦃f : Float W⦄ → Settings W → W → Option MomentumState → PipelineVerdict
decide ⦃f⦄ settings confidence momentum_state =
    if f.lt confidence settings.pipeline_min_confidence_pct
    then reject
    else elim momentum_state [ none ↦ reject | some s ↦ label s ]
