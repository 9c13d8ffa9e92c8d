-- ===== src/Scanning/Counts.antt =====
-- app/scanner/scanner_manager.py: the counters of a run.
use ai_market_scanning_engin.Prelude.{
  ℕ, ◌+◌, Bool, Option, List, [], ◌∷◌, ◌≡◌, refl, length, Float, arith, count_if,
}
use ai_market_scanning_engin.Scanning.Tables.{info, Tables, is_among, exists_bulk}
use ai_market_scanning_engin.Scanning.Models.{rejected, Symbol, Strategy, Writes, Scan, add_one}
use ai_market_scanning_engin.Scanning.Manager.{
  no_context, entry_of, counted, try_log, evaluate_batch, log_no_context_batch,
}
use ai_market_scanning_engin.Scanning.Batches.{
  run_scanner, select_symbols, without_context, with_context, not_scanned, scan_pairs,
}
use ai_market_scanning_engin.Scanning.Verdicts.{
  fate, is_late, sum_of, after, IsListed, stats-try_log, sum_of-leave-evaluate_symbol,
  leave-evaluate_symbol-IsListed,
}
use ai_market_scanning_engin.Scanning.Passes.{start_scan, run_scanner-one_pass}

module _ {C : Type 0} where
  without_context-with_context :
      (contexts : ℕ → Option C) (xs : List Symbol)
      → length (without_context contexts xs) + length (with_context contexts xs) ≡ length xs
  unfolding without_context with_context
  without_context-with_context contexts [] = refl
  without_context-with_context contexts (s ∷ rest) =
      ground (arith, without_context-with_context contexts rest)

module _ {C W : Type 0} (scanner : Strategy C W) where
  -- the candidates that have a row of the scanner for their date
  abbrev pub is_done : List (ℕ × ℕ) → Symbol × C → Bool
  is_done scanned (s, c) = is_among s.id (scanner.scan_date c) scanned

  length-not_scanned :
      (scanned : List (ℕ × ℕ)) (xs : List (Symbol × C))
      → length (not_scanned scanner scanned xs) + count_if (is_done scanned) xs ≡ length xs
  unfolding not_scanned
  length-not_scanned scanned [] = refl
  length-not_scanned scanned ((s, c) ∷ rest) = ground (arith, length-not_scanned scanned rest)

  -- how many symbols of a run have been scanned for their date before
  abbrev pub skipped_count : List Symbol → Tables W → ℕ
  skipped_count symbols t =
      let candidates = with_context (scanner.context_of symbols) symbols in
      count_if (is_done (exists_bulk t.results (scan_pairs scanner candidates) scanner.name))
        candidates

module _ {C W : Type 0} ⦃f : Float W⦄ (scanner : Strategy C W) (writes : Writes W)
    (run_id : ℕ) where
  abbrev pub is_late_pair : Symbol × C → Bool
  is_late_pair (symbol, c) = is_late (fate scanner writes run_id symbol c)

  sum_of-evaluate_batch :
      (xs : List (Symbol × C)) (s : Scan W)
      → sum_of (evaluate_batch scanner writes run_id xs s).stats.counts
        ≡ sum_of s.stats.counts + length xs + count_if is_late_pair xs
  unfolding evaluate_batch
  sum_of-evaluate_batch [] s = omega arith
  sum_of-evaluate_batch ((symbol, c) ∷ rest) s =
      let one = after scanner writes run_id symbol c s in
      ground (
        arith,
        sum_of-evaluate_batch rest one,
        sum_of-leave-evaluate_symbol scanner writes run_id symbol c s,
      )

  abbrev noted : Symbol → Scan W → Scan W
  noted symbol s =
      try_log writes (entry_of scanner writes run_id info no_context symbol) (counted rejected s)

  stats-noted : (symbol : Symbol) (s : Scan W) → (noted symbol s).stats ≡ (counted rejected s).stats
  stats-noted symbol s = stats-try_log writes _ (counted rejected s)

  sum_of-log :
      (xs : List Symbol) (s : Scan W)
      → sum_of (log_no_context_batch scanner writes run_id xs s).stats.counts
        ≡ sum_of s.stats.counts + length xs
  unfolding log_no_context_batch counted add_one
  sum_of-log [] s = omega arith
  sum_of-log (x ∷ rest) s = ground (arith, sum_of-log rest (noted x s), stats-noted x s)

  log-IsListed :
      (n : ℕ) (xs : List Symbol) (s : Scan W)
      → IsListed n s
      → IsListed n (log_no_context_batch scanner writes run_id xs s)
  unfolding log_no_context_batch counted add_one
  log-IsListed n [] s h = h
  log-IsListed n (x ∷ rest) s h = log-IsListed n rest (noted x s) (rw (stats-noted x s) h)

  evaluate_batch-IsListed :
      (n : ℕ) (xs : List (Symbol × C)) (s : Scan W)
      → IsListed n s
      → IsListed n (evaluate_batch scanner writes run_id xs s)
  unfolding evaluate_batch
  evaluate_batch-IsListed n [] s h = h
  evaluate_batch-IsListed n ((symbol, c) ∷ rest) s h =
      evaluate_batch-IsListed n rest (after scanner writes run_id symbol c s)
        (leave-evaluate_symbol-IsListed scanner writes run_id symbol c n s h)

  -- Whatever the strategy raises and the database refuses, a run accounts for its symbols: the qualified,
  -- the rejected, the errors and those scanned before for their date add up to the symbols given, once
  -- the symbols that were counted as rejected and then failed, which are counted twice, are added; and
  -- there is an entry in the list of errors for each error counted.
  pub run_scanner-counts :
      (symbols : List Symbol) (t : Tables W)
      → (sum_of (run_scanner scanner writes run_id symbols t).stats.counts
            + skipped_count scanner symbols t
          ≡ length symbols + count_if is_late_pair (select_symbols scanner symbols t))
        × IsListed (length symbols) (run_scanner scanner writes run_id symbols t)
  unfolding select_symbols
  run_scanner-counts symbols t = rw (run_scanner-one_pass scanner writes run_id symbols t) (
      let contexts = scanner.context_of symbols in
      let candidates = with_context contexts symbols in
      let scanned = exists_bulk t.results (scan_pairs scanner candidates) scanner.name in
      let chosen = select_symbols scanner symbols t in
      let missing = without_context contexts symbols in
      let start = start_scan symbols t in
      let logged = log_no_context_batch scanner writes run_id missing start in
      (
        omega (
          arith,
          sum_of-evaluate_batch chosen logged,
          sum_of-log missing start,
          length-not_scanned scanner scanned candidates,
          without_context-with_context contexts symbols,
        ),
        evaluate_batch-IsListed (length symbols) chosen logged
            (log-IsListed (length symbols) missing start (refl, refl)),
      ))
