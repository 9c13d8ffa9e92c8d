-- ===== src/Scanning/Manager.antt =====
-- app/scanner/scanner_manager.py and `save_results` of app/scanner/base_scanner.py: one batch. The database accepts or refuses a write, as
-- `Writes` says; a commit succeeds. What a savepoint holds is dropped when an exception leaves it; the
-- counters of the run are kept in memory and are not.
use ai_market_scanning_engin.Prelude.{
  ℕ, String, Option, none, some, List, [], ◌∷◌, ◌++◌, if◌then◌else◌, Result, ok, raise, Float,
}
use ai_market_scanning_engin.Scanning.Tables.{
  ResultRow, ScannerLog, Level, info, error_level, Tables, upsert_row,
}
use ai_market_scanning_engin.Scanning.Models.{
  Symbol, ScanOutcome, Strategy, Writes, Scan, Counter, qualified, rejected, failure, add_one,
}

module _ {W : Type 0} where
  unfoldable pub counted : Counter → Scan W → Scan W
  unfolding add_one
  counted c s = record s { stats = record s.stats { counts = add_one c s.stats.counts } }

  -- `log_repo.log`
  unfoldable pub write_log : Writes W → ScannerLog → Tables W → Result String (Tables W)
  write_log writes entry t = elim (writes.log_error entry) [
    | none ↦ ok (record t { logs = t.logs ++ (entry ∷ []) })
    | some e ↦ raise e
  ]

  -- A log entry in a savepoint of its own, whose failure is passed over.
  unfoldable pub try_log : Writes W → ScannerLog → Scan W → Scan W
  unfolding write_log
  try_log writes entry s = elim (write_log writes entry s.tables) [
    | ok t ↦ record s { tables = t }
    | raise _ ↦ s
  ]

abbrev pub no_context : List String
no_context = "no context available (e.g. no features computed yet)" ∷ []

module _ {C W : Type 0} ⦃f : Float W⦄ (scanner : Strategy C W) where
  unfoldable pub result_row : C → ScanOutcome → W → ResultRow W
  result_row c outcome score = record {
    symbol_id = (scanner.context_symbol c).id;
    scanner_name = scanner.name;
    date = scanner.scan_date c;
    score = f.round2 score;
    is_qualified = outcome.qualified;
    reason = outcome.reason;
    feature_snapshot = scanner.snapshot_of c;
  }

module _ {C W : Type 0} ⦃f : Float W⦄ (scanner : Strategy C W) (writes : Writes W)
    (run_id : ℕ) where
  unfoldable pub save_results : C → ScanOutcome → W → Tables W → Result String (Tables W)
  unfolding result_row upsert_row
  save_results c outcome score t =
      let row = result_row scanner c outcome score in
      elim (writes.save_error row) [
        | none ↦ ok (record t { results = upsert_row row t.results })
        | some e ↦ raise e
      ]

  unfoldable pub entry_of : Level → List String → Symbol → ScannerLog
  entry_of level message symbol = record {
    run_id = run_id;
    symbol_id = symbol.id;
    scanner_name = scanner.name;
    level = level;
    message = message;
  }

  -- The state that is reached, and the exception that is raised there.
  unfoldable pub save_verdict : Symbol → C → ScanOutcome → W → Scan W → Scan W × Option String
  unfolding save_results counted entry_of write_log
  save_verdict symbol c outcome score s = elim (save_results c outcome score s.tables) [
    | raise e ↦ (s, some e)
    | ok t ↦
        if outcome.qualified
        then (counted qualified (record s { tables = t }), none)
        else elim (write_log writes (entry_of info outcome.reason symbol) t) [
          | ok t2 ↦ (counted rejected (record s { tables = t2 }), none)
          | raise e ↦ (counted rejected (record s { tables = t }), some e)
        ]
  ]

  unfoldable pub scan_valid : Symbol → C → Scan W → Scan W × Option String
  unfolding save_verdict
  scan_valid symbol c s = elim (scanner.scan c) [
    | raise e ↦ (s, some e)
    | ok (outcome, scanned) ↦ elim (scanner.score_of scanned) [
      | raise e ↦ (s, some e)
      | ok score ↦ save_verdict symbol scanned outcome score s
    ]
  ]

  unfoldable pub evaluate_symbol : Symbol → C → Scan W → Scan W × Option String
  unfolding scan_valid entry_of write_log counted
  evaluate_symbol symbol c s = elim (scanner.validate c) [
    | raise e ↦ (s, some e)
    | ok v ↦
        if v.valid
        then scan_valid symbol c s
        else elim (write_log writes (entry_of info ("validation failed: " ∷ v.reason) symbol)
            s.tables) [
              | ok t ↦ (counted rejected (record s { tables = t }), none)
              | raise e ↦ (s, some e)
            ]
  ]

  -- The savepoint around one symbol, and the handler.
  unfoldable pub leave : Symbol → Tables W → Scan W × Option String → Scan W
  unfolding counted try_log entry_of
  leave symbol before (s, none) = s
  leave symbol before (s, some e) =
      let failed = counted failure (record s { tables = before }) in
      try_log writes (entry_of error_level (e ∷ []) symbol) (record failed {
        stats = record failed.stats { errors = failed.stats.errors ++ ((symbol.symbol, e) ∷ []) };
      })

  unfoldable pub evaluate_batch : List (Symbol × C) → Scan W → Scan W
  unfolding evaluate_symbol leave
  evaluate_batch [] s = s
  evaluate_batch ((symbol, c) ∷ rest) s =
      evaluate_batch rest (leave symbol s.tables (evaluate_symbol symbol c s))

  unfoldable pub log_no_context_batch : List Symbol → Scan W → Scan W
  unfolding counted try_log entry_of
  log_no_context_batch [] s = s
  log_no_context_batch (symbol ∷ rest) s =
      log_no_context_batch rest
        (try_log writes (entry_of info no_context symbol) (counted rejected s))
