-- ===== src/Examples/Pipeline.antt =====
-- One symbol through the momentum pipeline.
use ai_market_scanning_engin.Prelude.{
  ℕ, String, Option, none, some, [], ◌∷◌, refl, ◌==◌, ◌+◌, if◌then◌else◌, str_eq,
}
use ai_market_scanning_engin.Prelude.Floats.{Whole, whole_float}
use ai_market_scanning_engin.Runtime.{plain_runtime}
use ai_market_scanning_engin.Examples.Inputs.{defaults, evidence}
use ai_market_scanning_engin.Examples.Momentum.{no_history, no_history-IsConsistent}
use ai_market_scanning_engin.Decision.Engine.{ScannerResult}
use ai_market_scanning_engin.Pipeline.Coordinator.{Pipeline, Reads, Fusion, evaluate_one}
use ai_market_scanning_engin.Pipeline.Standing.{Labelled, evaluate_one-Labelled}
use ai_market_scanning_engin.Pipeline.Run.{run_all}
use ai_market_scanning_engin.Pipeline.Tallies.{IsTallied, run_all-IsTallied}

abbrev fused : Fusion Whole
fused = record { overall_score = some (some 88); confidence = some 75; evidence = evidence }

abbrev reads : Reads Whole
reads = record {
  symbol_row = λ symbol. some 7;
  fusion = λ symbol. if str_eq symbol "TCS" then some fused else none;
  latest_intraday = λ id. some (1_782_900_000, some 3900);
}

abbrev quiet : Pipeline Whole
quiet = record { tables = no_history; observations = [] }

evaluate_one-Labelled_example :
    Labelled plain_runtime defaults reads "TCS" fused quiet
      (evaluate_one plain_runtime defaults reads "TCS" 1_782_900_060 1_782_900_061 quiet)
evaluate_one-Labelled_example =
    evaluate_one-Labelled plain_runtime defaults reads "TCS" fused 1_782_900_060 1_782_900_061 quiet
      refl no_history-IsConsistent

abbrev names : ℕ → Option String
names id = if id == 7 then some "TCS" else some "INFY"

abbrev clock : ℕ → ℕ
clock id = 1_782_900_061 + id

abbrev row_of : ℕ → ScannerResult Whole
row_of id = record {
  symbol_id = id;
  scanner_name = "ipo_intraday_v1";
  score = some 88;
  date = 20_635;
  feature_snapshot = [];
}

run_all-IsTallied_example : IsTallied (
    run_all plain_runtime defaults reads names clock 1_782_900_060
      (row_of 7 ∷ row_of 8 ∷ row_of 7 ∷ [])
      quiet)
run_all-IsTallied_example =
    run_all-IsTallied plain_runtime defaults reads names clock 1_782_900_060
      (row_of 7 ∷ row_of 8 ∷ row_of 7 ∷ []) quiet no_history-IsConsistent
