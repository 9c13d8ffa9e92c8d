-- ===== src/Scanning/Batches.antt =====
-- app/scanner/scanner_manager.py: `run_scanner`, with the symbols that it selects.
use ai_market_scanning_engin.Prelude.{
  ℕ, Option, none, some, List, [], ◌∷◌, map, length, max, if◌then◌else◌, Float,
}
use ai_market_scanning_engin.Fundamentals.Queue.{batches}
use ai_market_scanning_engin.Scanning.Tables.{Tables, exists_bulk, is_among}
use ai_market_scanning_engin.Scanning.Models.{Symbol, Strategy, Writes, Scan}
use ai_market_scanning_engin.Scanning.Manager.{log_no_context_batch, evaluate_batch}

abbrev pub batch_size : ℕ
batch_size = 200

-- `xs[i : i + _BATCH_SIZE]` for each i
abbrev pub in_batches {ℓ} : {A : Type ℓ} → List A → List (List A)
in_batches xs = batches (length xs) (max 1 batch_size) xs

module _ {C : Type 0} where
  -- `[s for s in symbols if contexts.get(s.id) is None]`
  unfoldable pub without_context : (ℕ → Option C) → List Symbol → List Symbol
  without_context contexts [] = []
  without_context contexts (s ∷ rest) =
      let others = without_context contexts rest in
      elim (contexts s.id) [ none ↦ s ∷ others | some _ ↦ others ]

  unfoldable pub with_context : (ℕ → Option C) → List Symbol → List (Symbol × C)
  with_context contexts [] = []
  with_context contexts (s ∷ rest) =
      let others = with_context contexts rest in
      elim (contexts s.id) [ none ↦ others | some c ↦ (s, c) ∷ others ]

module _ {C W : Type 0} (scanner : Strategy C W) where
  -- the pairs of symbol and date that the repository is asked about
  abbrev pub scan_pairs : List (Symbol × C) → List (ℕ × ℕ)
  scan_pairs = map λ p. (p.0.id, scanner.scan_date p.1)

  -- `(symbol.id, context.scan_date) not in already_scanned`
  unfoldable pub not_scanned : List (ℕ × ℕ) → List (Symbol × C) → List (Symbol × C)
  unfolding is_among
  not_scanned scanned [] = []
  not_scanned scanned ((s, c) ∷ rest) =
      let others = not_scanned scanned rest in
      if is_among s.id (scanner.scan_date c) scanned then others else (s, c) ∷ others

  unfoldable pub select_symbols : List Symbol → Tables W → List (Symbol × C)
  unfolding with_context exists_bulk not_scanned
  select_symbols symbols t =
      let candidates = with_context (scanner.context_of symbols) symbols in
      not_scanned (exists_bulk t.results (scan_pairs candidates) scanner.name) candidates

module _ {C W : Type 0} ⦃f : Float W⦄ (scanner : Strategy C W) (writes : Writes W)
    (run_id : ℕ) where
  unfoldable pub evaluate_batches : List (List (Symbol × C)) → Scan W → Scan W
  unfolding evaluate_batch
  evaluate_batches [] s = s
  evaluate_batches (b ∷ more) s = evaluate_batches more (evaluate_batch scanner writes run_id b s)

  unfoldable pub log_batches : List (List Symbol) → Scan W → Scan W
  unfolding log_no_context_batch
  log_batches [] s = s
  log_batches (b ∷ more) s = log_batches more (log_no_context_batch scanner writes run_id b s)

  unfoldable pub run_scanner : List Symbol → Tables W → Scan W
  unfolding without_context select_symbols log_batches evaluate_batches
  run_scanner symbols t =
      let start : Scan W = record {
        tables = t;
        stats = record {
          counts = record {
            scanned = length symbols;
            qualified_count = 0;
            rejected_count = 0;
            error_count = 0;
          };
          errors = [];
        };
      } in
      evaluate_batches (in_batches (select_symbols scanner symbols t))
        (log_batches (in_batches (without_context (scanner.context_of symbols) symbols)) start)
