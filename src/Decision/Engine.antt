-- ===== src/Decision/Engine.antt =====
-- app/decision/engine.py: one pass over the qualified scanner results.
use ai_market_scanning_engin.Prelude.{
  ℕ, suc, String, Option, none, some, List, [], ◌∷◌, ◌++◌, Float, Result, ok, raise,
}
use ai_market_scanning_engin.Runtime.{Runtime}
use ai_market_scanning_engin.Settings.{Settings}
use ai_market_scanning_engin.Values.{Snapshot}
use ai_market_scanning_engin.Decision.Models.{
  Decision, alert, watch, reject, DecisionCandidate, derive_signal_type,
}
use ai_market_scanning_engin.Decision.Evaluator.{evaluate}
use ai_market_scanning_engin.Alerts.Store.{AlertStore}
use ai_market_scanning_engin.Alerts.Manager.{process_impl, AssertionError}

-- A row of `scanner_results`, as far as it is read here.
pub record ScannerResult (W : Type 0) : Type 0 where
  pub symbol_id : ℕ
  pub scanner_name : String
  pub score : W
  pub date : ℕ
  pub feature_snapshot : Snapshot W

-- An error is kept as the candidate's name and the exception, not as a text.
pub record DecisionEngineResult : Type 0 where
  pub candidates_evaluated : ℕ
  pub alerts_created : ℕ
  pub watch_count : ℕ
  pub reject_count : ℕ
  pub errors : List (String × AssertionError)

-- The counters and the alert tables, on the way.
pub record Run (W : Type 0) : Type 0 where
  pub store : AlertStore W
  pub result : DecisionEngineResult

abbrev pub no_candidates : DecisionEngineResult
no_candidates = record {
  candidates_evaluated = 0;
  alerts_created = 0;
  watch_count = 0;
  reject_count = 0;
  errors = [];
}

module _ {W : Type 0} where
  -- what a verdict adds to the counters, `processed` being what `process` gives for an ALERT
  unfoldable pub tally :
      String → Decision → Result AssertionError (AlertStore W × Option ℕ) → Run W → Run W
  tally symbol alert (ok (store, some id)) run = record {
    store = store;
    result = record run.result { alerts_created = suc run.result.alerts_created };
  }
  tally symbol alert (ok (store, none)) run = record run { store = store }
  tally symbol alert (raise e) run = record run {
    result = record run.result { errors = run.result.errors ++ ((symbol, e) ∷ []) };
  }
  tally symbol watch processed run = record run {
    result = record run.result { watch_count = suc run.result.watch_count };
  }
  tally symbol reject processed run = record run {
    result = record run.result { reject_count = suc run.result.reject_count };
  }

  abbrev pub counted : Run W → Run W
  counted run = record run {
    result = record run.result { candidates_evaluated = suc run.result.candidates_evaluated };
  }

module _ (rt : Runtime) {W : Type 0} ⦃f : Float W⦄ (settings : Settings W) where
  unfoldable pub candidate_of : String → ScannerResult W → DecisionCandidate W
  unfolding derive_signal_type
  candidate_of symbol r = record {
    symbol = symbol;
    scanner_name = r.scanner_name;
    signal_type = derive_signal_type rt r.scanner_name;
    score = r.score;
    scan_date = r.date;
    feature_snapshot = r.feature_snapshot;
  }

  -- the body of the loop for a symbol that is known; `db_now` is the database's clock at the insertion
  unfoldable pub judge : String → ScannerResult W → ℕ → ℕ → Run W → Run W
  unfolding tally candidate_of
  judge symbol r moment db_now run =
      let d = evaluate rt settings (candidate_of symbol r) moment in
      tally symbol d.decision (process_impl rt settings d r.symbol_id moment db_now run.store)
        (counted run)

  -- `symbols` is the map of ids to names that was read with the rows; `clock` is the database's time
  -- at the row that is inserted with an id.
  module _ (symbols : ℕ → Option String) (clock : ℕ → ℕ) (moment : ℕ) where
    unfoldable pub visit : ScannerResult W → Run W → Run W
    unfolding judge
    visit r run = elim (symbols r.symbol_id) [
      | none ↦ run
      | some symbol ↦ judge symbol r moment (clock run.store.next_id) run
    ]

    unfoldable pub visit_all : List (ScannerResult W) → Run W → Run W
    unfolding visit
    visit_all [] run = run
    visit_all (r ∷ rest) run = visit_all rest (visit r run)

    unfoldable pub run_all : List (ScannerResult W) → AlertStore W → Run W
    unfolding visit_all
    run_all qualified store = visit_all qualified (record { store = store; result = no_candidates })
