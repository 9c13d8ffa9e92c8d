-- ===== src/Pipeline/Tallies.antt =====
-- app/decision/momentum_pipeline_coordinator.py: what one pass adds up to.
use ai_market_scanning_engin.Prelude.{
  ◌∙◌, ap, ℕ, suc, ◌+◌, ◌≤◌, ◌≡◌, refl, String, false, Option, none, some, List, [], ◌∷◌, Float,
  Result, ok, raise, arith, length, length-append, All, All-append, Bool-cases, Option-cases, inl,
  inr,
}
use ai_market_scanning_engin.Runtime.{Runtime}
use ai_market_scanning_engin.Settings.{Settings}
use ai_market_scanning_engin.Decision.Engine.{ScannerResult}
use ai_market_scanning_engin.Momentum.Log.{IsConsistent}
use ai_market_scanning_engin.Pipeline.Decide.{
  PipelineDecisionResult, PipelineVerdict, trigger, watch, reject, invalidate,
}
use ai_market_scanning_engin.Pipeline.Coordinator.{
  Pipeline, PipelineError, Reads, evaluate_one, fusion_failed, Fusion,
}
use ai_market_scanning_engin.Pipeline.Standing.{Labelled, evaluate_one-Labelled}
use ai_market_scanning_engin.Pipeline.Run.{
  PipelineRun, PipelineRunResult, is_in, count_verdict, settle, started, take_up, visit, visit_all,
  run_all,
}

abbrev pub IsDistinct : List String → Type 0
IsDistinct [] = Unit
IsDistinct (s ∷ rest) = (is_in s rest ≡ false) × IsDistinct rest

abbrev pub verdicts : PipelineRunResult → ℕ
verdicts r = r.trigger_count + r.watch_count + r.reject_count + r.invalidate_count

-- Each symbol is evaluated once; every evaluation has one verdict or one exception; an alert is counted
-- for a TRIGGER alone; and an exception is one of the fusion.
pub record IsTallied {W : Type 0} (run : PipelineRun W) : Type 0 where
  pub consistent : IsConsistent run.pipeline.tables.momentum
  pub distinct : IsDistinct run.seen_symbols
  pub evaluated : run.result.candidates_evaluated ≡ length run.seen_symbols
  pub balanced : verdicts run.result + length run.result.errors ≡ run.result.candidates_evaluated
  pub alerted : run.result.alerts_created ≤ run.result.trigger_count
  pub of_fusion : All (λ (e : String × PipelineError). e.1 ≡ fusion_failed) run.result.errors

abbrev Counted : PipelineRunResult → PipelineRunResult → Type 0
Counted r s =
    (verdicts s ≡ suc (verdicts r))
    × (s.errors ≡ r.errors)
    × (s.candidates_evaluated ≡ r.candidates_evaluated)
    × (r.alerts_created ≤ r.trigger_count → s.alerts_created ≤ s.trigger_count)

count_verdict_lem :
    (v : PipelineVerdict) (alert_id : Option ℕ) (r : PipelineRunResult)
    → Counted r (count_verdict v alert_id r)
unfolding count_verdict
count_verdict_lem trigger none r = (omega arith, refl, refl, λ h. omega arith)
count_verdict_lem trigger (some id) r = (omega arith, refl, refl, λ h. omega arith)
count_verdict_lem watch alert_id r = (omega arith, refl, refl, λ h. h)
count_verdict_lem reject alert_id r = (omega arith, refl, refl, λ h. h)
count_verdict_lem invalidate alert_id r = (omega arith, refl, refl, λ h. h)

module _ {W : Type 0} where
  settle_ok :
      (symbol : String) (p : Pipeline W) (d : PipelineDecisionResult W) (run : PipelineRun W)
      → is_in symbol run.seen_symbols ≡ false
      → IsConsistent p.tables.momentum
      → IsTallied run
      → IsTallied (settle symbol (ok (p, d)) (started symbol run))
  unfolding settle
  settle_ok symbol p d run fresh consistent h =
      let (one, same, kept, alerts) =
        count_verdict_lem d.verdict d.alert_id (started symbol run).result in
      record {
        consistent = consistent;
        distinct = (fresh, h.distinct);
        evaluated = kept ∙ omega (arith, h.evaluated);
        balanced = omega (arith, one, kept, h.balanced, ap length same);
        alerted = alerts h.alerted;
        of_fusion = rw same h.of_fusion;
      }

  settle_raise :
      (symbol : String) (run : PipelineRun W)
      → is_in symbol run.seen_symbols ≡ false
      → IsTallied run
      → IsTallied (settle symbol (raise fusion_failed) (started symbol run))
  unfolding settle
  settle_raise symbol run fresh h = record {
    consistent = h.consistent;
    distinct = (fresh, h.distinct);
    evaluated = omega (arith, h.evaluated);
    balanced =
        omega (arith, h.balanced, length-append run.result.errors ((symbol, fusion_failed) ∷ []));
    alerted = h.alerted;
    of_fusion = All-append _ run.result.errors _ h.of_fusion (refl, tt);
  }

module _ (rt : Runtime) {W : Type 0} ⦃f : Float W⦄ (settings : Settings W) (reads : Reads W) where
  module _ (symbols : ℕ → Option String) (clock : ℕ → ℕ) (moment : ℕ) where
    evaluate_one-fusion_failed :
        (symbol : String) (db_now : ℕ) (p : Pipeline W)
        → reads.fusion symbol ≡ none
        → evaluate_one rt settings reads symbol moment db_now p ≡ raise fusion_failed
    unfolding evaluate_one
    evaluate_one-fusion_failed symbol db_now p e = rw (e, evaluate_one) refl

    settle-IsTallied :
        (symbol : String) (fusion : Fusion W) (before : Pipeline W)
        (answer : Result PipelineError (Pipeline W × PipelineDecisionResult W))
        (run : PipelineRun W)
        → Labelled rt settings reads symbol fusion before answer
        → is_in symbol run.seen_symbols ≡ false
        → IsTallied run
        → IsTallied (settle symbol answer (started symbol run))
    settle-IsTallied symbol fusion before (raise e) run labelled fresh h = elim labelled [ ]
    settle-IsTallied symbol fusion before (ok (p, d)) run labelled fresh h =
        settle_ok symbol p d run fresh labelled.0 h

    take_up-IsTallied :
        (symbol : String) (run : PipelineRun W)
        → is_in symbol run.seen_symbols ≡ false
        → IsTallied run
        → IsTallied (take_up rt settings reads symbols clock moment symbol run)
    unfolding take_up
    take_up-IsTallied symbol run fresh h = elim (Option-cases (reads.fusion symbol)) [
      | inl e ↦
          rw (evaluate_one-fusion_failed symbol _ run.pipeline e) (settle_raise symbol run fresh h)
      | inr (fusion, e) ↦
          settle-IsTallied symbol fusion run.pipeline _ run
            (evaluate_one-Labelled rt settings reads symbol fusion moment
              (clock run.pipeline.tables.alerting.next_id) run.pipeline e h.consistent)
            fresh h
    ]

    visit-IsTallied :
        (r : ScannerResult W) (run : PipelineRun W)
        → IsTallied run
        → IsTallied (visit rt settings reads symbols clock moment r run)
    unfolding visit
    visit-IsTallied r run h = elim (Option-cases (symbols r.symbol_id)) [
      | inl e ↦ rw (e, visit) h
      | inr (symbol, e) ↦ elim (Bool-cases (is_in symbol run.seen_symbols)) [
        | inl again ↦ rw (e, visit, again) h
        | inr fresh ↦ rw (e, visit, fresh) (take_up-IsTallied symbol run fresh h)
      ]
    ]

    visit_all-IsTallied :
        (qualified : List (ScannerResult W)) (run : PipelineRun W)
        → IsTallied run
        → IsTallied (visit_all rt settings reads symbols clock moment qualified run)
    unfolding visit_all
    visit_all-IsTallied [] run h = h
    visit_all-IsTallied (r ∷ rest) run h = visit_all-IsTallied rest _ (visit-IsTallied r run h)

    -- A pass over any qualified rows, started on consistent tables, ends with consistent tables. No
    -- symbol is evaluated twice; every evaluation ends in exactly one verdict or one exception; the only
    -- exceptions are those of the fusion; and no more alerts are counted than TRIGGER verdicts.
    pub run_all-IsTallied :
        (qualified : List (ScannerResult W)) (p : Pipeline W)
        → IsConsistent p.tables.momentum
        → IsTallied (run_all rt settings reads symbols clock moment qualified p)
    unfolding run_all
    run_all-IsTallied qualified p h = visit_all-IsTallied qualified _ (record {
      consistent = h;
      distinct = tt;
      evaluated = refl;
      balanced = refl;
      alerted = omega arith;
      of_fusion = tt;
    })
