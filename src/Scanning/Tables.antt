-- ===== src/Scanning/Tables.antt =====
-- app/repositories/scanner_repository.py. A text that is put together is the list of its parts. The three tables list their rows from the oldest to the newest.
-- `scanner_results` has a unique constraint on symbol, scanner and date, so that a query by all three
-- finds one row at most.
use ai_market_scanning_engin.Prelude.{
  ℕ, suc, String, Bool, false, ◌&&◌, ◌||◌, Option, none, some, List, [], ◌∷◌, ◌++◌, ◌==◌,
  if◌then◌else◌, str_eq, length,
}
use ai_market_scanning_engin.Values.{Snapshot}

pub record ResultRow (W : Type 0) : Type 0 where
  pub symbol_id : ℕ
  pub scanner_name : String
  pub date : ℕ
  pub score : W
  pub is_qualified : Bool
  pub reason : List String
  pub feature_snapshot : Snapshot W

pub data Level : Type 0 where
  info error_level : Level

pub record ScannerLog : Type 0 where
  pub run_id : ℕ
  pub symbol_id : ℕ
  pub scanner_name : String
  pub level : Level
  pub message : List String

pub record RunCounts : Type 0 where
  pub scanned : ℕ
  pub qualified_count : ℕ
  pub rejected_count : ℕ
  pub error_count : ℕ

-- the duration and the counts are written with the finish time
pub record ScannerRun : Type 0 where
  pub id : ℕ
  pub scanner_name : String
  pub start_time : ℕ
  pub finished : Option (ℕ × RunCounts)

pub record Tables (W : Type 0) : Type 0 where
  pub results : List (ResultRow W)
  pub logs : List ScannerLog
  pub runs : List ScannerRun

module _ {W : Type 0} where
  -- `symbol_id == ... and scanner_name == ... and date == ...`
  unfoldable pub is_row_of : ℕ → String → ℕ → ResultRow W → Bool
  is_row_of symbol_id scanner_name date r =
      r.symbol_id == symbol_id && str_eq r.scanner_name scanner_name && r.date == date

  unfoldable pub find_row : ℕ → String → ℕ → List (ResultRow W) → Option (ResultRow W)
  unfolding is_row_of
  find_row symbol_id scanner_name date [] = none
  find_row symbol_id scanner_name date (r ∷ rest) =
      if is_row_of symbol_id scanner_name date r
      then some r
      else find_row symbol_id scanner_name date rest

  unfoldable pub upsert_row : ResultRow W → List (ResultRow W) → List (ResultRow W)
  unfolding is_row_of
  upsert_row new [] = new ∷ []
  upsert_row new (r ∷ rest) =
      let others = upsert_row new rest in
      if is_row_of new.symbol_id new.scanner_name new.date r then new ∷ rest else r ∷ others

  -- `existing & set(pairs)`: the pairs that have a row of the scanner
  unfoldable pub exists_bulk : List (ResultRow W) → List (ℕ × ℕ) → String → List (ℕ × ℕ)
  unfolding find_row
  exists_bulk rows [] scanner_name = []
  exists_bulk rows ((symbol_id, date) ∷ pairs) scanner_name =
      let others = exists_bulk rows pairs scanner_name in
      elim (find_row symbol_id scanner_name date rows) [
        | none ↦ others
        | some _ ↦ (symbol_id, date) ∷ others
      ]

-- `(symbol_id, date) in existing`
unfoldable pub is_among : ℕ → ℕ → List (ℕ × ℕ) → Bool
is_among symbol_id date [] = false
is_among symbol_id date ((s, d) ∷ rest) =
    (s == symbol_id && d == date) || is_among symbol_id date rest

-- the database numbers the runs from 1
unfoldable pub start_run : String → ℕ → List ScannerRun → ScannerRun × List ScannerRun
start_run scanner_name start_time runs =
    let run : ScannerRun = record {
      id = suc (length runs);
      scanner_name = scanner_name;
      start_time = start_time;
      finished = none;
    } in
    (run, runs ++ (run ∷ []))

-- `session.merge(run)` and `finish`: the row with the run's id
unfoldable pub finish_run : ScannerRun → ℕ → RunCounts → List ScannerRun → List ScannerRun
finish_run run finish_time counts [] = []
finish_run run finish_time counts (r ∷ rest) =
    let others = finish_run run finish_time counts rest in
    if r.id == run.id then record r { finished = some (finish_time, counts) } ∷ rest else r ∷ others
