-- ===== src/Scanning/Engine.antt =====
-- app/scanner/engine.py and app/scanner/scanner_registry.py: every registered strategy in turn, each with
-- a row of its run. The freshness of the features is only reported; the heartbeat is left out.
use ai_market_scanning_engin.Prelude.{
  ℕ, ◌+◌, suc, length, String, List, [], ◌∷◌, ◌++◌, Float, Map, map, insert,
}
use ai_market_scanning_engin.Scanning.Tables.{Tables, RunCounts, start_run, finish_run}
use ai_market_scanning_engin.Scanning.Models.{Symbol, Strategy, Writes}
use ai_market_scanning_engin.Scanning.Batches.{run_scanner}

pub record ScannerEngineResult : Type 0 where
  pub scanners_run : ℕ
  pub totals : RunCounts
  pub errors : List (String × String)

module _ {C W : Type 0} where
  unfoldable pub register : Strategy C W → Map (Strategy C W) → Map (Strategy C W)
  unfolding insert
  register scanner registry = insert scanner.name scanner registry

  -- `list(self._scanners.values())`
  unfoldable pub get_all : Map (Strategy C W) → List (Strategy C W)
  get_all registry = map (λ e. e.1) registry

unfoldable pub add_counts : RunCounts → RunCounts → RunCounts
add_counts a b = record {
  scanned = a.scanned + b.scanned;
  qualified_count = a.qualified_count + b.qualified_count;
  rejected_count = a.rejected_count + b.rejected_count;
  error_count = a.error_count + b.error_count;
}

abbrev pub no_counts : RunCounts
no_counts = record { scanned = 0; qualified_count = 0; rejected_count = 0; error_count = 0 }

abbrev pub nothing_run : ScannerEngineResult
nothing_run = record { scanners_run = 0; totals = no_counts; errors = [] }

-- The clock, by the id of the run.
module _ {C W : Type 0} ⦃f : Float W⦄ (writes : Writes W) (start_time finish_time : ℕ → ℕ)
    (symbols : List Symbol) where
  unfoldable pub run_one :
      Strategy C W → Tables W × ScannerEngineResult → Tables W × ScannerEngineResult
  unfolding start_run run_scanner finish_run add_counts
  run_one scanner (t, result) =
      let candidates = scanner.get_candidate_symbols symbols in
      let opened = start_run scanner.name (start_time (suc (length t.runs))) t.runs in
      let run = opened.0 in
      let done = run_scanner scanner writes run.id candidates (record t { runs = opened.1 }) in
      (
        record done.tables {
          runs = finish_run run (finish_time run.id) done.stats.counts done.tables.runs;
        },
        record {
          scanners_run = suc result.scanners_run;
          totals = add_counts result.totals done.stats.counts;
          errors = result.errors ++ done.stats.errors;
        },
      )

  unfoldable pub run_each :
      List (Strategy C W) → Tables W × ScannerEngineResult → Tables W × ScannerEngineResult
  unfolding run_one
  run_each [] s = s
  run_each (scanner ∷ rest) s = run_each rest (run_one scanner s)

  unfoldable pub run_all_scanners : Map (Strategy C W) → Tables W → Tables W × ScannerEngineResult
  unfolding get_all run_each
  run_all_scanners registry t = run_each (get_all registry) (t, nothing_run)
