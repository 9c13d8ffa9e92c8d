-- ===== src/Examples/Momentum.antt =====
-- A symbol's life, run on scores.
use ai_market_scanning_engin.Prelude.Floats.{whole_float, Whole, Whole-IsOrdered}
use ai_market_scanning_engin.Momentum.Repository.{state_of, get_current, find_record}
use ai_market_scanning_engin.Prelude.{
  ◌≤◌, ◌≡◌, refl, some, none, List, [], ◌∷◌, length, count_if, ok,
}
use ai_market_scanning_engin.Runtime.{plain_runtime}
use ai_market_scanning_engin.Examples.Inputs.{defaults, evidence}
use ai_market_scanning_engin.Momentum.States.{
  setup, watch, activating, triggered, confirmed, exhausted, is_alert_worthy,
}
use ai_market_scanning_engin.Momentum.Machine.{
  evaluate_transition, apply_transition, supports_advancing,
}
use ai_market_scanning_engin.Momentum.Edges.{apply_transition-evaluate_transition}
use ai_market_scanning_engin.Momentum.Lifecycle.{entered, entered_above, entered_bounded}
use ai_market_scanning_engin.Momentum.Engine.{Tables, evaluate}
use ai_market_scanning_engin.Momentum.Log.{IsConsistent, Evaluated, evaluate-Evaluated}
use ai_market_scanning_engin.Alerts.History.{empty_store}

abbrev trigger : Whole
trigger = some 80

abbrev scores : List Whole
scores = some 30 ∷ some 60 ∷ some 85 ∷ some 85 ∷ some 95 ∷ some 70 ∷ some 99 ∷ []

-- 30 and 60 are below the trigger, the score then rises past it, and falls at last.
a_life : entered trigger none scores ≡ watch ∷ activating ∷ triggered ∷ confirmed ∷ exhausted ∷ []
unfolding entered evaluate_transition
a_life = refl

apply_transition-evaluate_transition_example : apply_transition (some setup) watch ≡ ok tt
unfolding evaluate_transition
apply_transition-evaluate_transition_example =
    apply_transition-evaluate_transition {W = Whole} (some setup) (some 85) (some 80)
      {r = supports_advancing (some 85) watch} refl

entered_bounded_example :
    (length (entered trigger none scores) ≤ 6)
    × (count_if is_alert_worthy (entered trigger none scores) ≤ 2)
entered_bounded_example = entered_bounded trigger scores

entered_above_example :
    entered trigger (some setup) (some 85 ∷ some 90 ∷ []) ≡ watch ∷ activating ∷ []
entered_above_example =
    entered_above Whole-IsOrdered trigger refl (some setup) (some 85 ∷ some 90 ∷ [])
      (refl, (refl, tt))

abbrev pub no_history : Tables Whole
no_history = record {
  momentum = record { records = []; transitions = []; next_id = 1 };
  alerting = empty_store;
}

pub no_history-IsConsistent : IsConsistent no_history.momentum
unfolding state_of get_current find_record
no_history-IsConsistent = record { chained = tt; agrees = λ symbol_id. refl }

evaluate-Evaluated_example : Evaluated plain_runtime defaults no_history (
    evaluate plain_runtime defaults
      (some 7)
      "TCS"
      (some 85)
      evidence
      1_782_900_000
      1_782_900_001
      no_history)
evaluate-Evaluated_example =
    evaluate-Evaluated plain_runtime defaults (some 7) "TCS" (some 85) evidence 1_782_900_000
      1_782_900_001 no_history no_history-IsConsistent
