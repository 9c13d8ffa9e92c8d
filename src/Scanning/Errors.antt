-- ===== src/Scanning/Errors.antt =====
-- app/scanner/scanner_manager.py and app/scanner/engine.py: where the errors of a run come from.
use ai_market_scanning_engin.Prelude.{
  ℕ, ◌+◌, suc, Bool, true, false, none, some, List, length, [], ◌∷◌, ◌≡◌, refl, ap, ◌∙◌, Float,
  arith, All, All-map, Bool-cases, inl, inr, ok,
}
use ai_market_scanning_engin.Scanning.Tables.{
  info, Tables, exists_bulk, ResultRow, ScannerLog, start_run,
}
use ai_market_scanning_engin.Scanning.Models.{
  rejected, Symbol, ScanOutcome, ValidationResult, Strategy, Writes, Scan, add_one,
}
use ai_market_scanning_engin.Scanning.Manager.{
  counted, write_log, evaluate_batch, log_no_context_batch, evaluate_symbol, leave, scan_valid,
  save_verdict, save_results, result_row, entry_of,
}
use ai_market_scanning_engin.Scanning.Batches.{
  run_scanner, select_symbols, without_context, with_context, not_scanned, scan_pairs,
}
use ai_market_scanning_engin.Scanning.Verdicts.{
  Fate, fate, fails, fate_of_row, after, stats-try_log,
}
use ai_market_scanning_engin.Scanning.Passes.{start_scan, run_scanner-one_pass}
use ai_market_scanning_engin.Scanning.Standing.{with_context-All, not_scanned-All}
use ai_market_scanning_engin.Scanning.Engine.{ScannerEngineResult, add_counts, run_one, run_each}

module _ {W : Type 0} where
  unfoldable pub is_failure : Fate W → Bool
  is_failure (fails late) = true
  is_failure _ = false

-- A database that takes every write.
pub record IsWritable (W : Type 0) (writes : Writes W) : Type 0 where
  pub saves : (row : ResultRow W) → writes.save_error row ≡ none
  pub logs : (entry : ScannerLog) → writes.log_error entry ≡ none

-- A context on which the strategy raises nothing: it says whether the context is valid and, if it is,
-- gives a verdict and a score.
pub record IsAnswered (C W : Type 0) (scanner : Strategy C W) (c : C) : Type 0 where
  pub validation : ValidationResult
  pub validates : scanner.validate c ≡ ok validation
  pub answer :
      validation.valid ≡ true
      → (o : ScanOutcome) × (k : C) × (scanner.scan c ≡ ok (o, k))
        × (x : W) × (scanner.score_of k ≡ ok x)

-- The contexts that the strategy builds itself are such.
abbrev pub IsGuarded : {C W : Type 0} → Strategy C W → Type 0
IsGuarded {C = C} {W = W} scanner =
    (symbols : List Symbol) (id : ℕ) (c : C)
    → scanner.context_of symbols id ≡ some c
    → IsAnswered C W scanner c

module _ {C W : Type 0} ⦃f : Float W⦄ (scanner : Strategy C W) (writes : Writes W)
    (run_id : ℕ) where
  IsFine : Symbol × C → Type 0
  IsFine (symbol, c) = is_failure (fate scanner writes run_id symbol c) ≡ false

  fate-IsFine :
      IsWritable W writes
      → (symbol : Symbol) (c : C) → IsAnswered C W scanner c
      → IsFine (symbol, c)
  unfolding IsFine fate fate_of_row is_failure
  fate-IsFine w symbol c a = elim (Bool-cases a.validation.valid) [
    | inl v ↦
        let given = a.answer v in
        ground (
          arith,
          a.validates,
          given.2,
          given.4,
          w.saves (result_row scanner given.1 given.0 given.3),
          w.logs (entry_of scanner writes run_id info given.0.reason symbol),
        )
    | inr v ↦ ground (
      arith,
      a.validates,
      w.logs (
          entry_of scanner writes run_id info ("validation failed: " ∷ a.validation.reason) symbol),
    )
  ]

  errors-after :
      (symbol : Symbol) (c : C) (s : Scan W)
      → IsFine (symbol, c)
      → (after scanner writes run_id symbol c s).stats.counts.error_count
        ≡ s.stats.counts.error_count
  unfolding IsFine is_failure leave evaluate_symbol scan_valid save_verdict save_results write_log
      counted add_one fate fate_of_row
  errors-after symbol c s h = ground arith

  errors-evaluate_batch :
      (xs : List (Symbol × C)) (s : Scan W)
      → All IsFine xs
      → (evaluate_batch scanner writes run_id xs s).stats.counts.error_count
        ≡ s.stats.counts.error_count
  unfolding evaluate_batch
  errors-evaluate_batch [] s h = refl
  errors-evaluate_batch ((symbol, c) ∷ rest) s h =
      errors-evaluate_batch rest _ h.1 ∙ errors-after symbol c s h.0

  errors-log :
      (xs : List Symbol) (s : Scan W)
      → (log_no_context_batch scanner writes run_id xs s).stats.counts.error_count
        ≡ s.stats.counts.error_count
  unfolding log_no_context_batch counted add_one
  errors-log [] s = refl
  errors-log (x ∷ rest) s =
      errors-log rest _
      ∙ ap (λ stats. stats.counts.error_count) (stats-try_log writes _ (counted rejected s))

  errors-run_scanner :
      IsWritable W writes
      → IsGuarded scanner
      → (symbols : List Symbol) (t : Tables W)
      → (run_scanner scanner writes run_id symbols t).stats.counts.error_count ≡ 0
  unfolding select_symbols
  errors-run_scanner w guarded symbols t =
      rw (run_scanner-one_pass scanner writes run_id symbols t) (
        let candidates = with_context (scanner.context_of symbols) symbols in
        let scanned = exists_bulk t.results (scan_pairs scanner candidates) scanner.name in
        let chosen = not_scanned scanner scanned candidates in
        let fine =
          with_context-All scanner IsFine (scanner.context_of symbols)
            (λ s c e. fate-IsFine w s c (guarded symbols s.id c e)) symbols in
        errors-evaluate_batch chosen _
          (All-map (λ p h. h.0) chosen (not_scanned-All scanner IsFine scanned candidates fine))
        ∙ errors-log (without_context (scanner.context_of symbols) symbols) (start_scan symbols t))

module _ {C W : Type 0} ⦃f : Float W⦄ (writes : Writes W) (start_time finish_time : ℕ → ℕ)
    (symbols : List Symbol) where
  pub run_each-errors :
      (scanners : List (Strategy C W)) (t : Tables W) (result : ScannerEngineResult)
      → IsWritable W writes
      → All IsGuarded scanners
      → (run_each writes start_time finish_time symbols scanners (t, result)).1.totals.error_count
        ≡ result.totals.error_count
  unfolding run_each run_one add_counts start_run
  run_each-errors [] t result w h = refl
  run_each-errors (scanner ∷ rest) t result w h =
      let one = run_one writes start_time finish_time symbols scanner (t, result) in
      let opened = start_run scanner.name (start_time (suc (length t.runs))) t.runs in
      let own =
        errors-run_scanner scanner writes opened.0.id w h.0 (scanner.get_candidate_symbols symbols)
          (record t { runs = opened.1 }) in
      run_each-errors rest one.0 one.1 w h.1
      ∙ ap (λ n. result.totals.error_count + n) own
      ∙ omega arith
