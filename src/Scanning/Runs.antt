-- ===== src/Scanning/Runs.antt =====
-- app/scanner/engine.py: the rows of the runs, and the totals.
use ai_market_scanning_engin.Prelude.{
  ℕ, ◌+◌, ◌≤◌, suc, String, true, none, some, List, [], ◌∷◌, ◌++◌, ◌≡◌, refl, ap, ◌∙◌, sym, map,
  length, length-append, Map, Float, arith, All, All-map, All-append, is_some,
}
use mathlib.Core.List.{append-nil, append_assoc}
use ai_market_scanning_engin.Scanning.Tables.{
  ScannerLog, RunCounts, Tables, ScannerRun, start_run, finish_run,
}
use ai_market_scanning_engin.Scanning.Models.{rejected, Symbol, Strategy, Writes, Scan}
use ai_market_scanning_engin.Scanning.Manager.{
  counted, write_log, try_log, evaluate_batch, log_no_context_batch, evaluate_symbol, leave,
  scan_valid, save_verdict, save_results,
}
use ai_market_scanning_engin.Scanning.Batches.{run_scanner, select_symbols, without_context}
use ai_market_scanning_engin.Scanning.Verdicts.{after}
use ai_market_scanning_engin.Scanning.Passes.{run_scanner-one_pass, start_scan}
use ai_market_scanning_engin.Scanning.Engine.{
  ScannerEngineResult, add_counts, no_counts, run_one, run_each, run_all_scanners, get_all,
}

module _ {W : Type 0} where
  runs-try_log :
      (writes : Writes W) (entry : ScannerLog) (s : Scan W)
      → (try_log writes entry s).tables.runs ≡ s.tables.runs
  unfolding try_log write_log
  runs-try_log writes entry s = ground arith

module _ {C W : Type 0} ⦃f : Float W⦄ (scanner : Strategy C W) (writes : Writes W)
    (run_id : ℕ) where
  runs-leave-evaluate_symbol :
      (symbol : Symbol) (c : C) (s : Scan W)
      → (after scanner writes run_id symbol c s).tables.runs ≡ s.tables.runs
  unfolding try_log leave evaluate_symbol scan_valid save_verdict save_results write_log counted
  runs-leave-evaluate_symbol symbol c s = ground arith

  runs-evaluate_batch :
      (xs : List (Symbol × C)) (s : Scan W)
      → (evaluate_batch scanner writes run_id xs s).tables.runs ≡ s.tables.runs
  unfolding evaluate_batch
  runs-evaluate_batch [] s = refl
  runs-evaluate_batch ((symbol, c) ∷ rest) s =
      runs-evaluate_batch rest _ ∙ runs-leave-evaluate_symbol symbol c s

  runs-log :
      (xs : List Symbol) (s : Scan W)
      → (log_no_context_batch scanner writes run_id xs s).tables.runs ≡ s.tables.runs
  unfolding log_no_context_batch counted
  runs-log [] s = refl
  runs-log (x ∷ rest) s = runs-log rest _ ∙ runs-try_log writes _ (counted rejected s)

  runs-run_scanner :
      (symbols : List Symbol) (t : Tables W)
      → (run_scanner scanner writes run_id symbols t).tables.runs ≡ t.runs
  runs-run_scanner symbols t = rw (run_scanner-one_pass scanner writes run_id symbols t) (
      runs-evaluate_batch (select_symbols scanner symbols t) _
      ∙ runs-log (without_context (scanner.context_of symbols) symbols) (start_scan symbols t))

-- the ids that the database has given
abbrev pub IsNumbered : List ScannerRun → Type 0
IsNumbered runs = All (λ r. r.id ≤ length runs) runs

finish_run_last :
    (n : ℕ) (run : ScannerRun) (finish_time : ℕ) (counts : RunCounts) (runs : List ScannerRun)
    → All (λ r. r.id ≤ n) runs
    → run.id ≡ suc n
    → finish_run run finish_time counts (runs ++ (run ∷ []))
      ≡ runs ++ (record run { finished = some (finish_time, counts) } ∷ [])
unfolding finish_run
finish_run_last n run finish_time counts [] h e = ground arith
finish_run_last n run finish_time counts (r ∷ rest) h e =
    ground (arith, finish_run_last n run finish_time counts rest h.1 e, h.0)

-- the counts of the runs that are over
unfoldable pub sum_counts : List ScannerRun → RunCounts
unfolding add_counts
sum_counts [] = no_counts
sum_counts (r ∷ rest) = elim r.finished [
  | none ↦ sum_counts rest
  | some (_, counts) ↦ add_counts counts (sum_counts rest)
]

add_counts_assoc :
    (a b c : RunCounts) → add_counts (add_counts a b) c ≡ add_counts a (add_counts b c)
unfolding add_counts
add_counts_assoc a b c = ground arith

add_counts_none : (a : RunCounts) → add_counts a no_counts ≡ a
unfolding add_counts
add_counts_none a = ground arith

IsNumbered-snoc :
    (runs : List ScannerRun) (r : ScannerRun)
    → IsNumbered runs
    → r.id ≡ suc (length runs)
    → IsNumbered (runs ++ (r ∷ []))
IsNumbered-snoc runs r h e = rw (length-append runs (r ∷ [])) (
    All-append (λ x. x.id ≤ length runs + 1) runs (r ∷ []) (All-map (λ x le. omega arith) runs h)
      (omega arith, tt))

-- What a pass over the strategies adds to the runs and to the totals.
pub record IsRecorded (names : List String) (before after_runs : List ScannerRun)
    (start total : RunCounts) : Type 0 where
  pub new_runs : List ScannerRun
  pub kept : after_runs ≡ before ++ new_runs
  pub named : map (λ r. r.scanner_name) new_runs ≡ names
  pub over : All (λ r. is_some r.finished ≡ true) new_runs
  pub summed : total ≡ add_counts start (sum_counts new_runs)

module _ {C W : Type 0} ⦃f : Float W⦄ (writes : Writes W) (start_time finish_time : ℕ → ℕ)
    (symbols : List Symbol) where
  abbrev run_of : Strategy C W → Tables W × ScannerEngineResult → ScannerRun
  run_of scanner (t, result) =
      let id = suc (length t.runs) in
      record {
        id = id;
        scanner_name = scanner.name;
        start_time = start_time id;
        finished = some (
          finish_time id,
          (run_scanner scanner writes id (scanner.get_candidate_symbols symbols) (record t {
            runs =
                t.runs
                ++ (record {
                  id = id;
                  scanner_name = scanner.name;
                  start_time = start_time id;
                  finished = none;
                }
                    ∷ []);
          })).stats.counts,
        );
      }

  runs-run_one :
      (scanner : Strategy C W) (t : Tables W) (result : ScannerEngineResult)
      → IsNumbered t.runs
      → (run_one writes start_time finish_time symbols scanner (t, result)).0.runs
        ≡ t.runs ++ (run_of scanner (t, result) ∷ [])
  unfolding run_one start_run
  runs-run_one scanner t result h =
      let run = (start_run scanner.name (start_time (suc (length t.runs))) t.runs).0 in
      let opened = record t { runs = t.runs ++ (run ∷ []) } in
      let candidates = scanner.get_candidate_symbols symbols in
      let counts = (run_scanner scanner writes run.id candidates opened).stats.counts in
      ap (finish_run run (finish_time run.id) counts)
        (runs-run_scanner scanner writes run.id candidates opened)
      ∙ finish_run_last (length t.runs) run (finish_time run.id) counts t.runs h refl

  run_each-IsRecorded :
      (scanners : List (Strategy C W)) (t : Tables W) (result : ScannerEngineResult)
      → IsNumbered t.runs
      → IsRecorded
          (map (λ s. s.name) scanners)
          t.runs
          (run_each writes start_time finish_time symbols scanners (t, result)).0.runs
          result.totals
          (run_each writes start_time finish_time symbols scanners (t, result)).1.totals
  unfolding run_each sum_counts run_one start_run
  run_each-IsRecorded [] t result h = record {
    new_runs = [];
    kept = sym (append-nil t.runs);
    named = refl;
    over = tt;
    summed = sym (add_counts_none result.totals);
  }
  run_each-IsRecorded (scanner ∷ rest) t result h =
      let one = run_one writes start_time finish_time symbols scanner (t, result) in
      let run = run_of scanner (t, result) in
      let e = runs-run_one scanner t result h in
      let more = run_each-IsRecorded rest one.0 one.1 (rw e (IsNumbered-snoc t.runs run h refl)) in
      record {
        new_runs = run ∷ more.new_runs;
        kept =
            more.kept
            ∙ ap (λ x. x ++ more.new_runs) e
            ∙ append_assoc t.runs (run ∷ []) more.new_runs;
        named = ap (◌∷◌ scanner.name) more.named;
        over = (refl, more.over);
        summed = more.summed ∙ add_counts_assoc result.totals _ (sum_counts more.new_runs);
      }

  -- A pass leaves the runs in the table as they were and adds one for each registered strategy, in their
  -- order and each finished, and the totals that it returns are the sums of the counts of those runs. The
  -- runs in the table have ids up to their number.
  pub run_all_scanners-IsRecorded :
      (registry : Map (Strategy C W)) (t : Tables W)
      → IsNumbered t.runs
      → IsRecorded
          (map (λ s. s.name) (get_all registry))
          t.runs
          (run_all_scanners writes start_time finish_time symbols registry t).0.runs
          no_counts
          (run_all_scanners writes start_time finish_time symbols registry t).1.totals
  unfolding run_all_scanners
  run_all_scanners-IsRecorded registry t h = run_each-IsRecorded (get_all registry) t _ h
