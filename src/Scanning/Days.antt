-- ===== src/Scanning/Days.antt =====
-- app/scanner/engine.py: the rows of the results through a pass of all the strategies.
use ai_market_scanning_engin.Prelude.{ℕ, String, some, List, [], ◌∷◌, ◌≡◌, Float, All, Map}
use ai_market_scanning_engin.Scanning.Tables.{ResultRow, Tables, find_row}
use ai_market_scanning_engin.Scanning.Models.{Symbol, Strategy, Writes}
use ai_market_scanning_engin.Scanning.Engine.{
  ScannerEngineResult, run_one, run_each, run_all_scanners, get_all,
}
use ai_market_scanning_engin.Scanning.Keys.{IsKeyed}
use ai_market_scanning_engin.Scanning.Standing.{
  HasSymbols, KeepsContext, run_scanner-stands, run_scanner-IsKeyed,
}

abbrev pub IsFaithful : {C W : Type 0} → Strategy C W → Type 0
IsFaithful scanner = HasSymbols scanner × KeepsContext scanner

module _ {C W : Type 0} ⦃f : Float W⦄ (writes : Writes W) (start_time finish_time : ℕ → ℕ)
    (symbols : List Symbol) where
  run_each-stands :
      (scanners : List (Strategy C W)) (t : Tables W) (result : ScannerEngineResult) (s d : ℕ)
      (n : String) (r : ResultRow W)
      → All IsFaithful scanners
      → find_row s n d t.results ≡ some r
      → find_row s n d
          (run_each writes start_time finish_time symbols scanners (t, result)).0.results
        ≡ some r
  unfolding run_each run_one
  run_each-stands [] t result s d n r law h = h
  run_each-stands (scanner ∷ rest) t result s d n r law h =
      let one = run_one writes start_time finish_time symbols scanner (t, result) in
      run_each-stands rest one.0 one.1 s d n r law.1 (
        run_scanner-stands scanner writes _ law.0 (scanner.get_candidate_symbols symbols) _ s d n r
          h)

  -- A row of the results that is in the table stays as it is through a pass of every registered strategy,
  -- whatever they return or raise and the database refuses: the verdict of a scanner on a symbol is given
  -- once for a date. The contexts of a strategy carry the symbols that they are made for,
  -- and its `scan` keeps their symbols and dates.
  pub run_all_scanners-stands :
      (registry : Map (Strategy C W)) (t : Tables W) (s d : ℕ) (n : String) (r : ResultRow W)
      → All IsFaithful (get_all registry)
      → find_row s n d t.results ≡ some r
      → find_row s n d (run_all_scanners writes start_time finish_time symbols registry t).0.results
        ≡ some r
  unfolding run_all_scanners
  run_all_scanners-stands registry t s d n r law h =
      run_each-stands (get_all registry) t _ s d n r law h

  run_each-IsKeyed :
      (scanners : List (Strategy C W)) (t : Tables W) (result : ScannerEngineResult)
      → IsKeyed t.results
      → IsKeyed (run_each writes start_time finish_time symbols scanners (t, result)).0.results
  unfolding run_each run_one
  run_each-IsKeyed [] t result h = h
  run_each-IsKeyed (scanner ∷ rest) t result h =
      let one = run_one writes start_time finish_time symbols scanner (t, result) in
      run_each-IsKeyed rest one.0 one.1
        (run_scanner-IsKeyed scanner writes _ (scanner.get_candidate_symbols symbols) _ h)

  -- A pass of every registered strategy keeps the keys of the results apart: when no two rows have the
  -- same symbol, scanner and date before it, no two have after it.
  pub run_all_scanners-IsKeyed :
      (registry : Map (Strategy C W)) (t : Tables W)
      → IsKeyed t.results
      → IsKeyed (run_all_scanners writes start_time finish_time symbols registry t).0.results
  unfolding run_all_scanners
  run_all_scanners-IsKeyed registry t h = run_each-IsKeyed (get_all registry) t _ h
