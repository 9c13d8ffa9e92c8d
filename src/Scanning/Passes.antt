-- ===== src/Scanning/Passes.antt =====
-- app/scanner/scanner_manager.py: a run is one pass over the symbols without a context and one over the
-- selected ones, however they are cut into batches.
use ai_market_scanning_engin.Prelude.{
  ℕ, List, [], ◌∷◌, ◌++◌, ◌≡◌, refl, ap, ◌∙◌, sym, length, Float,
}
use ai_market_scanning_engin.Fundamentals.Batches.{join, join-batches}
use ai_market_scanning_engin.Scanning.Tables.{ResultRow, Tables}
use ai_market_scanning_engin.Scanning.Models.{rejected, Symbol, Strategy, Writes, Scan}
use ai_market_scanning_engin.Scanning.Manager.{counted, evaluate_batch, log_no_context_batch}
use ai_market_scanning_engin.Scanning.Batches.{
  batch_size, in_batches, evaluate_batches, log_batches, run_scanner, select_symbols,
  without_context,
}
use ai_market_scanning_engin.Scanning.Verdicts.{
  results-try_log, fate, keep_row, after, results-leave-evaluate_symbol,
}

module _ {W : Type 0} where
  abbrev pub start_scan : List Symbol → Tables W → Scan W
  start_scan symbols t = record {
    tables = t;
    stats = record {
      counts = record {
        scanned = length symbols;
        qualified_count = 0;
        rejected_count = 0;
        error_count = 0;
      };
      errors = [];
    };
  }

module _ {C W : Type 0} ⦃f : Float W⦄ (scanner : Strategy C W) (writes : Writes W)
    (run_id : ℕ) where
  evaluate_batch-append :
      (xs ys : List (Symbol × C)) (s : Scan W)
      → evaluate_batch scanner writes run_id (xs ++ ys) s
        ≡ evaluate_batch scanner writes run_id ys (evaluate_batch scanner writes run_id xs s)
  unfolding evaluate_batch
  evaluate_batch-append [] ys s = refl
  evaluate_batch-append ((symbol, c) ∷ xs) ys s =
      evaluate_batch-append xs ys (after scanner writes run_id symbol c s)

  evaluate_batches-join :
      (bs : List (List (Symbol × C))) (s : Scan W)
      → evaluate_batches scanner writes run_id bs s
        ≡ evaluate_batch scanner writes run_id (join bs) s
  unfolding evaluate_batches evaluate_batch
  evaluate_batches-join [] s = refl
  evaluate_batches-join (b ∷ bs) s =
      evaluate_batches-join bs (evaluate_batch scanner writes run_id b s)
      ∙ sym (evaluate_batch-append b (join bs) s)

  log_no_context_batch-append :
      (xs ys : List Symbol) (s : Scan W)
      → log_no_context_batch scanner writes run_id (xs ++ ys) s
        ≡ log_no_context_batch scanner writes run_id ys
            (log_no_context_batch scanner writes run_id xs s)
  unfolding log_no_context_batch
  log_no_context_batch-append [] ys s = refl
  log_no_context_batch-append (x ∷ xs) ys s = log_no_context_batch-append xs ys _

  log_batches-join :
      (bs : List (List Symbol)) (s : Scan W)
      → log_batches scanner writes run_id bs s
        ≡ log_no_context_batch scanner writes run_id (join bs) s
  unfolding log_batches log_no_context_batch
  log_batches-join [] s = refl
  log_batches-join (b ∷ bs) s =
      log_batches-join bs (log_no_context_batch scanner writes run_id b s)
      ∙ sym (log_no_context_batch-append b (join bs) s)

  abbrev pub one_pass : List Symbol → Tables W → Scan W
  one_pass symbols t = evaluate_batch scanner writes run_id (select_symbols scanner symbols t) (
      log_no_context_batch scanner writes run_id
        (without_context (scanner.context_of symbols) symbols) (start_scan symbols t))

  pub run_scanner-one_pass :
      (symbols : List Symbol) (t : Tables W)
      → run_scanner scanner writes run_id symbols t ≡ one_pass symbols t
  unfolding run_scanner
  run_scanner-one_pass symbols t =
      let missing = without_context (scanner.context_of symbols) symbols in
      let chosen = select_symbols scanner symbols t in
      let logged = log_no_context_batch scanner writes run_id missing (start_scan symbols t) in
      ap (evaluate_batches scanner writes run_id (in_batches chosen)) (
        log_batches-join (in_batches missing) (start_scan symbols t)
        ∙ ap (λ xs. log_no_context_batch scanner writes run_id xs (start_scan symbols t))
            (join-batches batch_size missing))
      ∙ evaluate_batches-join (in_batches chosen) logged
      ∙ ap (λ xs. evaluate_batch scanner writes run_id xs logged) (join-batches batch_size chosen)

  -- the rows of a pass, by the fates of its symbols
  unfoldable pub keep_all : List (Symbol × C) → List (ResultRow W) → List (ResultRow W)
  unfolding fate keep_row
  keep_all [] rows = rows
  keep_all ((symbol, c) ∷ rest) rows =
      keep_all rest (keep_row (fate scanner writes run_id symbol c) rows)

  pub results-evaluate_batch :
      (xs : List (Symbol × C)) (s : Scan W)
      → (evaluate_batch scanner writes run_id xs s).tables.results ≡ keep_all xs s.tables.results
  unfolding evaluate_batch keep_all
  results-evaluate_batch [] s = refl
  results-evaluate_batch ((symbol, c) ∷ rest) s =
      results-evaluate_batch rest (after scanner writes run_id symbol c s)
      ∙ ap (keep_all rest) (results-leave-evaluate_symbol scanner writes run_id symbol c s)

  results-log :
      (xs : List Symbol) (s : Scan W)
      → (log_no_context_batch scanner writes run_id xs s).tables.results ≡ s.tables.results
  unfolding log_no_context_batch counted
  results-log [] s = refl
  results-log (x ∷ rest) s = results-log rest _ ∙ results-try_log writes _ (counted rejected s)

  -- The table of results after a run is the one before it with, for each selected symbol in turn, the row
  -- that stands: the verdict on one symbol, what its strategy raises and the writes that the database
  -- refuses for it change no other symbol's row, and the batches make no difference.
  pub results-run_scanner :
      (symbols : List Symbol) (t : Tables W)
      → (run_scanner scanner writes run_id symbols t).tables.results
        ≡ keep_all (select_symbols scanner symbols t) t.results
  results-run_scanner symbols t = rw (run_scanner-one_pass symbols t) (
      let missing = without_context (scanner.context_of symbols) symbols in
      let chosen = select_symbols scanner symbols t in
      let logged = log_no_context_batch scanner writes run_id missing (start_scan symbols t) in
      results-evaluate_batch chosen logged
      ∙ ap (keep_all chosen) (results-log missing (start_scan symbols t)))
