-- ===== src/Scanning/Rows.antt =====
-- app/scanner/scanner_manager.py and app/scanner/engine.py: what every row of the results has.
use ai_market_scanning_engin.Prelude.{
  ℕ, some, List, [], ◌∷◌, ◌≡◌, Float, All, All-map, ok, Option-cases, Bool-cases, inl, inr,
}
use ai_market_scanning_engin.Scanning.Tables.{
  info, ResultRow, Tables, upsert_row, is_row_of, exists_bulk,
}
use ai_market_scanning_engin.Scanning.Models.{Symbol, ScanOutcome, Strategy, Writes}
use ai_market_scanning_engin.Scanning.Manager.{entry_of, result_row}
use ai_market_scanning_engin.Scanning.Batches.{
  run_scanner, select_symbols, with_context, not_scanned, scan_pairs,
}
use ai_market_scanning_engin.Scanning.Verdicts.{fate, keep_row, fate_of_row}
use ai_market_scanning_engin.Scanning.Passes.{keep_all, results-run_scanner}
use ai_market_scanning_engin.Scanning.Standing.{fate_induction, with_context-All, not_scanned-All}
use ai_market_scanning_engin.Scanning.Engine.{ScannerEngineResult, run_one, run_each}

module _ {W : Type 0} (P : ResultRow W → Type 0) where
  upsert_row-All :
      (new : ResultRow W) (rows : List (ResultRow W))
      → P new
      → All P rows
      → All P (upsert_row new rows)
  unfolding upsert_row
  upsert_row-All new [] p h = (p, tt)
  upsert_row-All new (r ∷ rest) p h =
      elim (Bool-cases (is_row_of new.symbol_id new.scanner_name new.date r)) [
        | inl e ↦ rw (e, upsert_row) (p, h.1)
        | inr e ↦ rw (e, upsert_row) (h.0, upsert_row-All new rest p h.1)
      ]

  module _ {C : Type 0} ⦃f : Float W⦄ (scanner : Strategy C W) where
    -- the rows that a context can give
    abbrev GivesRow : C → Type 0
    GivesRow c =
        (o : ScanOutcome) (k : C) (x : W)
        → scanner.scan c ≡ ok (o, k)
        → scanner.score_of k ≡ ok x
        → P (result_row scanner k o x)

    -- those of the contexts that the strategy builds itself
    abbrev pub GivesRows : Type 0
    GivesRows =
        (symbols : List Symbol) (id : ℕ) (c : C)
        → scanner.context_of symbols id ≡ some c
        → GivesRow c

    module _ (writes : Writes W) (run_id : ℕ) where
      keep_fate-All :
          (symbol : Symbol) (o : ScanOutcome) (row : ResultRow W) (rows : List (ResultRow W))
          → P row
          → All P rows
          → All P (keep_row (fate_of_row scanner writes run_id symbol o row) rows)
      unfolding fate_of_row keep_row
      keep_fate-All symbol o row rows p h = elim (Option-cases (writes.save_error row)) [
        | inr (m, e) ↦ rw (e, fate_of_row) h
        | inl e ↦ elim (Bool-cases o.qualified) [
          | inl q ↦ rw (e, q, fate_of_row) (upsert_row-All row rows p h)
          | inr q ↦
              elim (Option-cases
                (writes.log_error (entry_of scanner writes run_id info o.reason symbol))) [
                  | inl l ↦ rw (e, q, l, fate_of_row) (upsert_row-All row rows p h)
                  | inr (m, l) ↦ rw (e, q, l, fate_of_row) h
                ]
        ]
      ]

      keep_row-All :
          (symbol : Symbol) (c : C) (rows : List (ResultRow W))
          → GivesRow c
          → All P rows
          → All P (keep_row (fate scanner writes run_id symbol c) rows)
      unfolding keep_row
      keep_row-All symbol c rows gives h =
          fate_induction scanner writes run_id symbol c (λ k. All P (keep_row k rows)) h h
            (λ o k x hs hx.
              keep_fate-All symbol o (result_row scanner k o x) rows (gives o k x hs hx) h)

      keep_all-All :
          (xs : List (Symbol × C)) (rows : List (ResultRow W))
          → All (λ p. GivesRow p.1) xs
          → All P rows
          → All P (keep_all scanner writes run_id xs rows)
      unfolding keep_all
      keep_all-All [] rows gives h = h
      keep_all-All ((symbol, c) ∷ rest) rows gives h =
          keep_all-All rest _ gives.1 (keep_row-All symbol c rows gives.0 h)

      pub run_scanner-All :
          GivesRows
          → (symbols : List Symbol) (t : Tables W) → All P t.results
          → All P (run_scanner scanner writes run_id symbols t).tables.results
      unfolding select_symbols
      run_scanner-All gives symbols t h = rw (results-run_scanner scanner writes run_id symbols t) (
          let candidates = with_context (scanner.context_of symbols) symbols in
          let scanned = exists_bulk t.results (scan_pairs scanner candidates) scanner.name in
          let each =
            with_context-All scanner (λ p. GivesRow p.1) (scanner.context_of symbols)
              (λ s c e. gives symbols s.id c e) symbols in
          keep_all-All (not_scanned scanner scanned candidates) t.results
            (All-map (λ p q. q.0) (not_scanned scanner scanned candidates)
              (not_scanned-All scanner (λ p. GivesRow p.1) scanned candidates each))
            h)

  module _ {C : Type 0} ⦃f : Float W⦄ (writes : Writes W) (start_time finish_time : ℕ → ℕ)
      (symbols : List Symbol) where
    pub run_each-All :
        (scanners : List (Strategy C W)) (t : Tables W) (result : ScannerEngineResult)
        → All GivesRows scanners
        → All P t.results
        → All P (run_each writes start_time finish_time symbols scanners (t, result)).0.results
    unfolding run_each run_one
    run_each-All [] t result gives h = h
    run_each-All (scanner ∷ rest) t result gives h =
        let one = run_one writes start_time finish_time symbols scanner (t, result) in
        run_each-All rest one.0 one.1 gives.1
          (run_scanner-All scanner writes _ gives.0 (scanner.get_candidate_symbols symbols) _ h)
