-- ===== src/Scanning/Verdicts.antt =====
-- app/scanner/scanner_manager.py: the verdict on one symbol, without the state of the run.
use ai_market_scanning_engin.Prelude.{
  ℕ, ◌+◌, suc, String, Bool, true, false, Option, none, some, List, [], ◌∷◌, ◌≡◌, length,
  if◌then◌else◌, ok, raise, Float, arith, length-append,
}
use ai_market_scanning_engin.Scanning.Tables.{
  ResultRow, ScannerLog, info, RunCounts, Tables, upsert_row,
}
use ai_market_scanning_engin.Scanning.Models.{Symbol, ScanOutcome, Strategy, Writes, Scan, add_one}
use ai_market_scanning_engin.Scanning.Manager.{
  counted, write_log, try_log, result_row, save_results, entry_of, save_verdict, scan_valid,
  evaluate_symbol, leave,
}

-- What becomes of a symbol: its row stands, or it is turned down, or it fails, `late` when it had been
-- counted as rejected already.
pub data Fate (W : Type 0) : Type 0 where
  stands : ResultRow W → Fate W
  turned_down : Fate W
  fails : (late : Bool) → Fate W

abbrev pub sum_of : RunCounts → ℕ
sum_of c = c.qualified_count + c.rejected_count + c.error_count

module _ {C W : Type 0} ⦃f : Float W⦄ (scanner : Strategy C W) (writes : Writes W)
    (run_id : ℕ) where
  unfoldable pub fate_of_row : Symbol → ScanOutcome → ResultRow W → Fate W
  fate_of_row symbol outcome row = elim (writes.save_error row) [
    | some _ ↦ fails false
    | none ↦
        if outcome.qualified
        then stands row
        else elim (writes.log_error (entry_of scanner writes run_id info outcome.reason symbol)) [
          | none ↦ stands row
          | some _ ↦ fails true
        ]
  ]

  unfoldable pub fate : Symbol → C → Fate W
  unfolding fate_of_row
  fate symbol c = elim (scanner.validate c) [
    | raise _ ↦ fails false
    | ok v ↦
        if v.valid
        then elim (scanner.scan c) [
          | raise _ ↦ fails false
          | ok (outcome, scanned) ↦ elim (scanner.score_of scanned) [
            | raise _ ↦ fails false
            | ok x ↦ fate_of_row symbol outcome (result_row scanner scanned outcome x)
          ]
        ]
        else elim (writes.log_error
            (entry_of scanner writes run_id info ("validation failed: " ∷ v.reason) symbol)) [
              | none ↦ turned_down
              | some _ ↦ fails false
            ]
  ]

module _ {W : Type 0} where
  -- `n` symbols were given, and every error that is counted is listed, and no other
  abbrev pub IsListed : ℕ → Scan W → Type 0
  IsListed n s = (s.stats.counts.scanned ≡ n) × (length s.stats.errors ≡ s.stats.counts.error_count)

  unfoldable pub keep_row : Fate W → List (ResultRow W) → List (ResultRow W)
  keep_row (stands row) rows = upsert_row row rows
  keep_row turned_down rows = rows
  keep_row (fails late) rows = rows

  unfoldable pub is_late : Fate W → Bool
  is_late (fails late) = late
  is_late _ = false

  pub results-try_log :
      (writes : Writes W) (entry : ScannerLog) (s : Scan W)
      → (try_log writes entry s).tables.results ≡ s.tables.results
  unfolding try_log write_log
  results-try_log writes entry s = ground arith

  pub stats-try_log :
      (writes : Writes W) (entry : ScannerLog) (s : Scan W)
      → (try_log writes entry s).stats ≡ s.stats
  unfolding try_log write_log
  stats-try_log writes entry s = ground arith

abbrev pub bit : Bool → ℕ
bit true = 1
bit false = 0

module _ {C W : Type 0} ⦃f : Float W⦄ (scanner : Strategy C W) (writes : Writes W)
    (run_id : ℕ) where
  abbrev pub after : Symbol → C → Scan W → Scan W
  after symbol c s =
      leave scanner writes run_id symbol s.tables (evaluate_symbol scanner writes run_id symbol c s)

  pub results-leave-evaluate_symbol :
      (symbol : Symbol) (c : C) (s : Scan W)
      → (after symbol c s).tables.results
        ≡ keep_row (fate scanner writes run_id symbol c) s.tables.results
  unfolding try_log leave evaluate_symbol scan_valid save_verdict save_results write_log counted
      fate fate_of_row keep_row
  results-leave-evaluate_symbol symbol c s = ground arith

  pub sum_of-leave-evaluate_symbol :
      (symbol : Symbol) (c : C) (s : Scan W)
      → sum_of (after symbol c s).stats.counts
        ≡ suc (sum_of s.stats.counts) + bit (is_late (fate scanner writes run_id symbol c))
  unfolding try_log leave evaluate_symbol scan_valid save_verdict save_results write_log counted
      add_one fate fate_of_row is_late
  sum_of-leave-evaluate_symbol symbol c s = ground arith

  leave-IsListed :
      (symbol : Symbol) (before : Tables W) (n : ℕ) (s : Scan W) (o : Option String)
      → IsListed n s
      → IsListed n (leave scanner writes run_id symbol before (s, o))
  unfolding try_log write_log leave counted add_one
  leave-IsListed symbol before n s none h = h
  leave-IsListed symbol before n s (some e) h =
      ground (arith, length-append s.stats.errors ((symbol.symbol, e) ∷ []))

  evaluate_symbol-IsListed :
      (symbol : Symbol) (c : C) (n : ℕ) (s : Scan W)
      → IsListed n s
      → IsListed n (evaluate_symbol scanner writes run_id symbol c s).0
  unfolding evaluate_symbol scan_valid save_verdict save_results write_log counted add_one
  evaluate_symbol-IsListed symbol c n s h = ground arith

  pub leave-evaluate_symbol-IsListed :
      (symbol : Symbol) (c : C) (n : ℕ) (s : Scan W) → IsListed n s → IsListed n (after symbol c s)
  leave-evaluate_symbol-IsListed symbol c n s h =
      let e = evaluate_symbol scanner writes run_id symbol c s in
      leave-IsListed symbol s.tables n e.0 e.1 (evaluate_symbol-IsListed symbol c n s h)
