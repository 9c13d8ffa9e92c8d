-- ===== src/Decision/Tallies.antt =====
-- app/decision/engine.py: what one pass adds up to.
use ai_market_scanning_engin.Prelude.{
  Bool, ℕ, suc, ◌+◌, ◌≤◌, ◌≡◌, refl, String, Option, none, some, List, [], ◌∷◌, Float, Result, ok,
  arith, length, inl, inr, Option-cases, count_if, is_some, length-append,
}
use ai_market_scanning_engin.Runtime.{Runtime}
use ai_market_scanning_engin.Settings.{Settings}
use ai_market_scanning_engin.Decision.Models.{
  Decision, alert, watch, reject, DecisionResult, Quality,
}
use ai_market_scanning_engin.Decision.Evaluator.{evaluate}
use ai_market_scanning_engin.Decision.Verdicts.{evaluate_verdict}
use ai_market_scanning_engin.Alerts.Store.{Alert, AlertStore}
use ai_market_scanning_engin.Alerts.Manager.{
  build_fingerprint, alert_row, AssertionError, process_impl, process_alert,
}
use ai_market_scanning_engin.Alerts.Outcomes.{Outcome, process_alert-Outcome}
use ai_market_scanning_engin.Decision.Engine.{
  Run, ScannerResult, DecisionEngineResult, no_candidates, tally, counted, candidate_of, judge,
  visit, visit_all, run_all,
}

abbrev verdicts : DecisionEngineResult → ℕ
verdicts r = r.alerts_created + r.watch_count + r.reject_count

module _ {W : Type 0} where
  abbrev alerts_of : Run W → ℕ
  alerts_of run = length run.store.alerts

  -- From one state of the pass to a later one, n candidates on: every alert counted is a row and a
  -- place in the queue, no candidate has two verdicts, and no exception was kept.
  pub record Progress (n : ℕ) (a b : Run W) : Type 0 where
    pub evaluated : b.result.candidates_evaluated ≡ a.result.candidates_evaluated + n
    pub rows :
        length b.store.alerts + a.result.alerts_created
        ≡ length a.store.alerts + b.result.alerts_created
    pub queued :
        length b.store.queue + a.result.alerts_created
        ≡ length a.store.queue + b.result.alerts_created
    pub judged : verdicts b.result ≤ verdicts a.result + n
    pub errors : b.result.errors ≡ a.result.errors

  Progress-suc : (n : ℕ) {a b c : Run W} → Progress 1 a b → Progress n b c → Progress (suc n) a c
  Progress-suc n p q = ground (
    arith, p.evaluated, p.rows, p.queued, p.judged, p.errors, q.evaluated, q.rows, q.queued,
    q.judged, q.errors,
  )

  -- An ALERT of known quality, whatever the guards of the alert manager say of it.
  tally-Outcome :
      (symbol : String) (row : ℕ → Alert W) (run : Run W) (p : AlertStore W × Option ℕ)
      → Outcome row run.store p
      → Progress 1 run (tally symbol alert (ok p) (counted run))
  unfolding tally
  tally-Outcome symbol row run (t, some id) (is_next, alerts, queue, events, next_id) = record {
    evaluated = omega arith;
    rows = rw alerts (omega arith);
    queued = rw queue (omega (arith, length-append run.store.queue (id ∷ [])));
    judged = omega arith;
    errors = refl;
  }
  tally-Outcome symbol row run (t, none) (alerts, queue, next_id, events) = record {
    evaluated = omega arith;
    rows = rw alerts refl;
    queued = rw queue refl;
    judged = omega arith;
    errors = refl;
  }

  tally-as :
      (symbol : String) (run : Run W) {u v : Decision}
      {p q : Result AssertionError (AlertStore W × Option ℕ)}
      → u ≡ v
      → p ≡ q
      → Progress 1 run (tally symbol v q (counted run))
      → Progress 1 run (tally symbol u p (counted run))
  tally-as symbol run e h progress = rw (e, h) progress

  tally_other :
      (symbol : String) (run : Run W) (p : Result AssertionError (AlertStore W × Option ℕ))
      → Progress 1 run (tally symbol watch p (counted run))
        × Progress 1 run (tally symbol reject p (counted run))
  unfolding tally
  tally_other symbol run p = (
    record {
      evaluated = omega arith;
      rows = refl;
      queued = refl;
      judged = omega arith;
      errors = refl;
    },
    record {
      evaluated = omega arith;
      rows = refl;
      queued = refl;
      judged = omega arith;
      errors = refl;
    },
  )

module _ (rt : Runtime) {W : Type 0} ⦃f : Float W⦄ (settings : Settings W) where
  pub process_impl-alert :
      (d : DecisionResult W) {quality : Quality} (symbol_id moment db_now : ℕ) (s : AlertStore W)
      → d.decision ≡ alert
      → d.quality ≡ some quality
      → process_impl rt settings d symbol_id moment db_now s
        ≡ ok (process_alert rt settings d quality symbol_id moment db_now s)
  unfolding process_impl build_fingerprint alert_row
  process_impl-alert d symbol_id moment db_now s e q = rw (e, q) refl

  judge-Progress :
      (symbol : String) (r : ScannerResult W) (moment db_now : ℕ) (run : Run W)
      → Progress 1 run (judge rt settings symbol r moment db_now run)
  unfolding judge
  judge-Progress symbol r moment db_now run =
      let d = evaluate rt settings (candidate_of rt settings symbol r) moment in
      let others =
        tally_other symbol run (process_impl rt settings d r.symbol_id moment db_now run.store) in
      elim (evaluate_verdict rt settings (candidate_of rt settings symbol r) moment) [
        | inl (against, rejected, none_given) ↦ tally-as symbol run rejected refl others.1
        | inr (inl (trust, qualifies, alerted, quality)) ↦
            tally-as symbol run alerted
              (process_impl-alert d r.symbol_id moment db_now run.store alerted quality)
              (tally-Outcome symbol _ run _
                (process_alert-Outcome rt settings d _ r.symbol_id moment db_now run.store))
        | inr (inr (trust, against, watched, quality)) ↦ tally-as symbol run watched refl others.0
      ]

  module _ (symbols : ℕ → Option String) (clock : ℕ → ℕ) (moment : ℕ) where
    abbrev pub is_known : ScannerResult W → Bool
    is_known r = is_some (symbols r.symbol_id)

    visit_all-Progress :
        (qualified : List (ScannerResult W)) (run : Run W)
        → Progress
            (count_if is_known qualified)
            run
            (visit_all rt settings symbols clock moment qualified run)
    unfolding visit_all visit
    visit_all-Progress [] run = record {
      evaluated = omega arith;
      rows = refl;
      queued = refl;
      judged = omega arith;
      errors = refl;
    }
    visit_all-Progress (r ∷ rest) run = elim (Option-cases (symbols r.symbol_id)) [
      | inl e ↦ rw (e, count_if, visit_all, visit) (visit_all-Progress rest run)
      | inr (symbol, e) ↦
          rw (e, count_if, visit_all, visit)
            (Progress-suc (count_if is_known rest)
              (judge-Progress symbol r moment (clock run.store.next_id) run)
              (visit_all-Progress rest
                (judge rt settings symbol r moment (clock run.store.next_id) run)))
    ]

    -- One pass over any qualified rows and any alert tables ends without an exception kept, so the
    -- assertion of the alert manager never fails. It evaluates exactly the rows of known symbols, gives
    -- each at most one verdict, and every alert that it counts is one new row and one new place in the
    -- queue.
    pub run_all-Progress :
        (qualified : List (ScannerResult W)) (store : AlertStore W)
        → Progress
            (count_if is_known qualified)
            (record { store = store; result = no_candidates })
            (run_all rt settings symbols clock moment qualified store)
    unfolding run_all
    run_all-Progress qualified store = visit_all-Progress qualified _
