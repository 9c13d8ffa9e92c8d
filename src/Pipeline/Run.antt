-- ===== src/Pipeline/Run.antt =====
-- app/decision/momentum_pipeline_coordinator.py: `run_all`, the pass over the qualified rows.
use ai_market_scanning_engin.Prelude.{
  ℕ, suc, String, Bool, false, ◌||◌, Option, none, some, List, [], ◌∷◌, ◌++◌, Float, if◌then◌else◌,
  Result, ok, raise, str_eq,
}
use ai_market_scanning_engin.Runtime.{Runtime}
use ai_market_scanning_engin.Settings.{Settings}
use ai_market_scanning_engin.Decision.Engine.{ScannerResult}
use ai_market_scanning_engin.Pipeline.Decide.{
  PipelineVerdict, PipelineDecisionResult, trigger, watch, reject, invalidate,
}
use ai_market_scanning_engin.Pipeline.Coordinator.{Pipeline, PipelineError, Reads, evaluate_one}

pub record PipelineRunResult : Type 0 where
  pub candidates_evaluated : ℕ
  pub trigger_count : ℕ
  pub watch_count : ℕ
  pub reject_count : ℕ
  pub invalidate_count : ℕ
  pub alerts_created : ℕ
  pub errors : List (String × PipelineError)

pub record PipelineRun (W : Type 0) : Type 0 where
  pub pipeline : Pipeline W
  pub seen_symbols : List String
  pub result : PipelineRunResult

abbrev pub no_results : PipelineRunResult
no_results = record {
  candidates_evaluated = 0;
  trigger_count = 0;
  watch_count = 0;
  reject_count = 0;
  invalidate_count = 0;
  alerts_created = 0;
  errors = [];
}

-- `name in seen_symbols`
abbrev pub is_in : String → List String → Bool
is_in name [] = false
is_in name (s ∷ rest) = str_eq s name || is_in name rest

abbrev pub alert_count : Option ℕ → ℕ → ℕ
alert_count none n = n
alert_count (some id) n = suc n

-- what one verdict adds to the counters, with the alert's id
unfoldable pub count_verdict : PipelineVerdict → Option ℕ → PipelineRunResult → PipelineRunResult
count_verdict trigger alert_id r = record r {
  trigger_count = suc r.trigger_count;
  alerts_created = alert_count alert_id r.alerts_created;
}
count_verdict watch alert_id r = record r { watch_count = suc r.watch_count }
count_verdict reject alert_id r = record r { reject_count = suc r.reject_count }
count_verdict invalidate alert_id r = record r { invalidate_count = suc r.invalidate_count }

module _ {W : Type 0} where
  -- An exception is kept with the symbol's name. One of the fusion comes before any write.
  unfoldable pub settle :
      String
      → Result PipelineError (Pipeline W × PipelineDecisionResult W)
      → PipelineRun W
      → PipelineRun W
  unfolding count_verdict
  settle symbol (ok (p, d)) run = record run {
    pipeline = p;
    result = count_verdict d.verdict d.alert_id run.result;
  }
  settle symbol (raise e) run = record run {
    result = record run.result { errors = run.result.errors ++ ((symbol, e) ∷ []) };
  }

  abbrev pub started : String → PipelineRun W → PipelineRun W
  started symbol run = record run {
    seen_symbols = symbol ∷ run.seen_symbols;
    result = record run.result { candidates_evaluated = suc run.result.candidates_evaluated };
  }

module _ (rt : Runtime) {W : Type 0} ⦃f : Float W⦄ (settings : Settings W) (reads : Reads W) where
  -- `symbols` is the map of ids to names that was read with the rows; `clock` is the database's time
  -- at the alert that is inserted with an id.
  module _ (symbols : ℕ → Option String) (clock : ℕ → ℕ) (moment : ℕ) where
    -- a symbol that was not seen before
    unfoldable pub take_up : String → PipelineRun W → PipelineRun W
    unfolding settle
    take_up symbol run =
        settle symbol
          (evaluate_one rt settings reads symbol moment (clock run.pipeline.tables.alerting.next_id)
            run.pipeline)
          (started symbol run)

    unfoldable pub visit : ScannerResult W → PipelineRun W → PipelineRun W
    unfolding take_up
    visit r run = elim (symbols r.symbol_id) [
      | none ↦ run
      | some symbol ↦ if is_in symbol run.seen_symbols then run else take_up symbol run
    ]

    unfoldable pub visit_all : List (ScannerResult W) → PipelineRun W → PipelineRun W
    unfolding visit
    visit_all [] run = run
    visit_all (r ∷ rest) run = visit_all rest (visit r run)

    unfoldable pub run_all : List (ScannerResult W) → Pipeline W → PipelineRun W
    unfolding visit_all
    run_all qualified p =
        visit_all qualified (record { pipeline = p; seen_symbols = []; result = no_results })
