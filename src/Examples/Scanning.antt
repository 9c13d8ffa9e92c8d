-- ===== src/Examples/Scanning.antt =====
-- Three symbols through the strategies of the listed universe: one that breaks out, one that does not, and
-- one without a history.
use ai_market_scanning_engin.Prelude.{
  ◌/◌, Map, inl, ℕ, true, false, none, some, List, [], ◌∷◌, refl, ◌==◌, ◌+◌, ◌≡◌, if◌then◌else◌,
  ltb, count_if, arith, All, map,
}
use ai_market_scanning_engin.Prelude.Floats.{Whole, whole_float, Whole-IsOrdered}
use ai_market_scanning_engin.Examples.Inputs.{defaults}
use ai_market_scanning_engin.Scanning.Tables.{ResultRow, Tables, find_row}
use ai_market_scanning_engin.Scanning.Models.{Symbol, Writes, Strategy}
use ai_market_scanning_engin.Scanning.Batches.{run_scanner, select_symbols}
use ai_market_scanning_engin.Scanning.Engine.{run_all_scanners, get_all, no_counts}
use ai_market_scanning_engin.Scanning.Verdicts.{sum_of, IsListed}
use ai_market_scanning_engin.Scanning.Passes.{keep_all, results-run_scanner}
use ai_market_scanning_engin.Scanning.Counts.{skipped_count, is_late_pair, run_scanner-counts}
use ai_market_scanning_engin.Scanning.Keys.{IsKeyed}
use ai_market_scanning_engin.Scanning.Days.{run_all_scanners-stands, run_all_scanners-IsKeyed}
use ai_market_scanning_engin.Scanning.Runs.{IsRecorded, run_all_scanners-IsRecorded}
use ai_market_scanning_engin.Scanning.Errors.{IsWritable}
use ai_market_scanning_engin.Scanners.Candidate.{
  Column, Texts, ipo_universe, CandidateContext, momentum,
}
use ai_market_scanning_engin.Scanners.Builder.{Scorers, no_factors, stock_candidate}
use ai_market_scanning_engin.Scanners.Universes.{Universes}
use ai_market_scanning_engin.Scanners.Registry.{registry}
use ai_market_scanning_engin.Scanners.Contexts.{Context, DailyFeature, Rows, candidate_context}
use ai_market_scanning_engin.Scanners.Breakout.{breakout_v1}
use ai_market_scanning_engin.Fundamentals.Queue.{batches}
use ai_market_scanning_engin.Scanners.Composite.{within_resistance_proximity}
use ai_market_scanning_engin.Scanners.Safety.{registry-IsFaithful, run_all_scanners-no_errors}
use ai_market_scanning_engin.Scanners.Scores.{run_all_scanners-IsScored}
use ai_market_scanning_engin.Scanners.Labels.{routed_by, bot_when, scans-routed_by}
use ai_market_scanning_engin.Scanners.Validator.{all_checks}
use ai_market_scanning_engin.Scanners.CandidateScans.{
  fno_checks, pre_breakout_checks, ipo_checks, fno_scan, pre_breakout_scan, ipo_scan,
}
use ai_market_scanning_engin.Alerts.Store.{ipo_bot, fno_bot}
use ai_market_scanning_engin.Scanners.Bounds.{IsRounding, IsScoredRow}

instance abbrev pub whole_column : Column ℕ Whole
whole_column = record {
  above = λ a b. ltb b a;
  is_zero = λ a. a == 0;
  to_float = some;
  shown_as = λ a. "";
}

abbrev pub features : DailyFeature ℕ Whole
features = record {
  date = 20_635;
  ema20 = some 95;
  ema50 = some 90;
  ema200 = some 80;
  adx14 = some 30;
  relative_volume = some 2;
  resistance_level = some 100;
  momentum_score = some 40;
  trend_strength = some 70;
  breakout_level = some 100;
  support_level = some 80;
  rs_vs_nifty = none;
  atr_expansion = true;
  atr_contraction = false;
  pattern_vcp = false;
  columns = [];
}

abbrev rows : Rows ℕ Whole
rows = record {
  features_by_id = λ id. if id == 3 then none else some features;
  prices_by_id = λ id. if id == 1 then some (99, 20_635) else some (85, 20_635);
  sessions_by_id = λ id. none;
}

abbrev texts : Texts
texts = record { iso = λ n. ""; joined = λ parts. ""; list_text = λ items. "" }

abbrev scorers : Scorers Whole
scorers = record {
  technical = λ id. record {
    score = some 80;
    completeness = some 100;
    positive_reasons = [];
    risk_flags = [];
    factors = no_factors;
  };
  fundamental = record {
    score = none;
    completeness = some 0;
    positive_reasons = [];
    risk_flags = [];
    factors = no_factors;
  };
  sources = λ s. "UPSTOX" ∷ [];
  now = 1_782_900_000;
}

abbrev symbols : List Symbol
symbols =
    record { id = 1; symbol = "TCS" }
    ∷ record { id = 2; symbol = "INFY" }
    ∷ record { id = 3; symbol = "NEW" }
    ∷ []

abbrev universes : Universes ℕ
universes = record {
  fno_symbols = symbols;
  ipo_symbols = [];
  high_low_by_id = λ id. none;
  volume_by_id = λ id. none;
}

abbrev day : ℕ → ℕ
day t = t / 86_400

abbrev strategies : Map (Strategy (Context ℕ Whole) Whole)
strategies = registry defaults texts day scorers universes rows

abbrev writable : Writes Whole
writable = record { save_error = λ r. none; log_error = λ e. none }

-- the log refuses the entries of symbol 2
abbrev failing : Writes Whole
failing = record {
  save_error = λ r. none;
  log_error = λ e. if e.symbol_id == 2 then some "timeout" else none;
}

abbrev no_rows : Tables Whole
no_rows = record { results = []; logs = []; runs = [] }

abbrev scanner : Strategy (Context ℕ Whole) Whole
scanner = breakout_v1 defaults texts day rows

counted_twice :
    (run_scanner scanner failing 1 symbols no_rows).stats.counts
    ≡ record { scanned = 3; qualified_count = 1; rejected_count = 2; error_count = 1 }
unfolding run_scanner batches breakout_v1 within_resistance_proximity
counted_twice = refl

run_scanner-counts_example :
    (sum_of (run_scanner scanner failing 1 symbols no_rows).stats.counts
        + skipped_count scanner symbols no_rows
      ≡ 3 + count_if (is_late_pair scanner failing 1) (select_symbols scanner symbols no_rows))
    × IsListed 3 (run_scanner scanner failing 1 symbols no_rows)
run_scanner-counts_example = run_scanner-counts scanner failing 1 symbols no_rows

results-run_scanner_example :
    (run_scanner scanner failing 1 symbols no_rows).tables.results
    ≡ keep_all scanner failing 1 (select_symbols scanner symbols no_rows) []
results-run_scanner_example = results-run_scanner scanner failing 1 symbols no_rows

abbrev clock : ℕ → ℕ
clock id = 1_782_900_000 + id

abbrev old_row : ResultRow Whole
old_row = record {
  symbol_id = 1;
  scanner_name = "breakout_v1";
  date = 20_635;
  score = some 50;
  is_qualified = false;
  reason = [];
  feature_snapshot = [];
}

abbrev one_row : Tables Whole
one_row = record { results = old_row ∷ []; logs = []; runs = [] }

run_all_scanners-stands_example :
    find_row 1 "breakout_v1" 20_635
      (run_all_scanners failing clock clock symbols strategies one_row).0.results
    ≡ some old_row
unfolding find_row
run_all_scanners-stands_example =
    run_all_scanners-stands failing clock clock symbols strategies one_row 1 20_635 "breakout_v1"
      old_row (registry-IsFaithful defaults texts day scorers universes rows) refl

run_all_scanners-IsKeyed_example :
    IsKeyed (run_all_scanners failing clock clock symbols strategies one_row).0.results
unfolding IsKeyed
run_all_scanners-IsKeyed_example =
    run_all_scanners-IsKeyed failing clock clock symbols strategies one_row (refl, tt)

run_all_scanners-IsRecorded_example :
    IsRecorded
      (map (λ s. s.name) (get_all strategies))
      []
      (run_all_scanners failing clock clock symbols strategies one_row).0.runs
      no_counts
      (run_all_scanners failing clock clock symbols strategies one_row).1.totals
run_all_scanners-IsRecorded_example =
    run_all_scanners-IsRecorded failing clock clock symbols strategies one_row tt

writable-IsWritable : IsWritable Whole writable
writable-IsWritable = record { saves = λ r. refl; logs = λ e. refl }

run_all_scanners-no_errors_example :
    (run_all_scanners writable clock clock symbols strategies no_rows).1.totals.error_count ≡ 0
run_all_scanners-no_errors_example =
    run_all_scanners-no_errors defaults texts day scorers universes rows writable clock clock
      symbols no_rows writable-IsWritable

pub Whole-IsRounding : IsRounding Whole
Whole-IsRounding = record {
  nan = λ x h. h;
  above = λ n x h. h;
  below = λ n x h. h;
  lits = λ m n h. ground arith;
}

run_all_scanners-IsScored_example :
    All IsScoredRow (run_all_scanners failing clock clock symbols strategies one_row).0.results
run_all_scanners-IsScored_example =
    run_all_scanners-IsScored Whole-IsOrdered Whole-IsRounding defaults texts day scorers universes
      rows failing clock clock symbols one_row (inl (refl, refl), tt)

-- an IPO in momentum
abbrev candidate : CandidateContext ℕ Whole
candidate = record {
  symbol = record { id = 1; symbol = "TCS" };
  candidate =
      record (stock_candidate defaults texts scorers rows ipo_universe "ipo_intraday_v1"
        (record { id = 1; symbol = "TCS" }) features 99) { setup_state = some momentum };
}

scans-routed_by_example :
    (routed_by texts (fno_scan defaults (candidate_context candidate))
      ≡ some (
        all_checks (fno_checks defaults candidate.candidate),
        bot_when (all_checks (fno_checks defaults candidate.candidate)) fno_bot,
      ))
    × (routed_by texts (pre_breakout_scan defaults (candidate_context candidate))
        ≡ some (
          all_checks (pre_breakout_checks defaults candidate.candidate),
          bot_when (all_checks (pre_breakout_checks defaults candidate.candidate)) ipo_bot,
        ))
    × (routed_by texts (ipo_scan defaults (candidate_context candidate))
        ≡ some (
          all_checks (ipo_checks defaults candidate.candidate),
          bot_when (all_checks (ipo_checks defaults candidate.candidate)) ipo_bot,
        ))
unfolding stock_candidate
scans-routed_by_example = scans-routed_by defaults texts candidate
