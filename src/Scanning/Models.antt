-- ===== src/Scanning/Models.antt =====
-- app/scanner/models.py, app/scanner/base_scanner.py and the counters of app/scanner/scanner_manager.py. A
-- strategy is a record of its methods, which raise an exception by its text.
use ai_market_scanning_engin.Prelude.{ℕ, suc, String, Bool, Option, List, Result, ok, raise}
use ai_market_scanning_engin.Values.{Snapshot}
use ai_market_scanning_engin.Scanning.Tables.{ResultRow, ScannerLog, RunCounts, Tables}

pub record Symbol : Type 0 where
  pub id : ℕ
  pub symbol : String

pub record ValidationResult : Type 0 where
  pub valid : Bool
  pub reason : List String

pub record ScanOutcome : Type 0 where
  pub qualified : Bool
  pub reason : List String

-- `C` is the strategy's own context.
pub record Strategy (C W : Type 0) : Type 0 where
  pub name : String
  pub get_candidate_symbols : List Symbol → List Symbol
  -- `contexts.get(symbol.id)` of what `build_context_bulk` returns
  pub context_of : List Symbol → ℕ → Option C
  pub context_symbol : C → Symbol
  pub scan_date : C → ℕ
  pub snapshot_of : C → Snapshot W
  pub validate : C → Result String ValidationResult
  -- the verdict, and the context as `scan` leaves it
  pub scan : C → Result String (ScanOutcome × C)
  pub score_of : C → Result String W

-- Why a write fails, if it does.
pub record Writes (W : Type 0) : Type 0 where
  pub save_error : ResultRow W → Option String
  pub log_error : ScannerLog → Option String

pub record ScannerRunStats : Type 0 where
  pub counts : RunCounts
  pub errors : List (String × String)

-- The tables, and the counters of the run.
pub record Scan (W : Type 0) : Type 0 where
  pub tables : Tables W
  pub stats : ScannerRunStats

pub data Counter : Type 0 where
  qualified rejected failure : Counter

unfoldable pub add_one : Counter → RunCounts → RunCounts
add_one qualified c = record c { qualified_count = suc c.qualified_count }
add_one rejected c = record c { rejected_count = suc c.rejected_count }
add_one failure c = record c { error_count = suc c.error_count }

-- what a `scan` that changes nothing of its context gives
abbrev pub unchanged {ℓ κ} : {C : Type ℓ} {O : Type κ} → C → Result String O → Result String (O × C)
unchanged c (ok o) = ok (o, c)
unchanged c (raise e) = raise e
