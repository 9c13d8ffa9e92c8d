-- ===== src/Momentum/Machine.antt =====
-- app/momentum/state_machine.py. A reason is the values that its text is made of.
use Prim.Native.String.{◌++◌ as append}
use ai_market_scanning_engin.Prelude.{
  String, List, [], ◌∷◌, ℕ, zero, suc, ◌+◌, ◌||◌, Option, none, some, leb, Float, if◌then◌else◌,
  Result, ok, raise,
}
use ai_market_scanning_engin.Momentum.States.{
  state_value, MomentumState, setup, watch, activating, triggered, confirmed, exhausted,
  invalidated, is_valid_transition, state_eq, index,
}

-- The f-strings that go with a transition.
pub data Reason (W : Type 0) : Type 0 where
  initial_observation : (score : W) (band : ℕ) → Reason W
  still_above : (threshold score : W) → Reason W
  fell_after_triggering : (threshold score : W) → Reason W
  fell_before_triggering : (score band_low : W) → Reason W
  supports_advancing : (score : W) (next : MomentumState) → Reason W

-- `ValueError("invalid transition: …")`
pub data IllegalEdge : Type 0 where
  invalid_transition : (from to : MomentumState) → IllegalEdge

-- `_LADDER[i]`, for the indices that the code reads
abbrev pub ladder : ℕ → MomentumState
ladder zero = setup
ladder (suc zero) = watch
ladder (suc (suc zero)) = activating
ladder (suc (suc (suc n))) = triggered

-- `_LADDER.index(state)` of a state on the ladder
abbrev pub ladder_index : MomentumState → ℕ
ladder_index = index

module _ {W : Type 0} ⦃f : Float W⦄ where
  unfoldable pub band_index : W → W → ℕ
  band_index score trigger_threshold =
      let band_low = f.div trigger_threshold (f.lit 3) in
      let band_mid = f.div (f.mul (f.lit 2) trigger_threshold) (f.lit 3) in
      if f.le trigger_threshold score
      then 3
      else if f.le band_mid score
      then 2
      else if f.le band_low score
      then 1
      else 0

  -- `threshold` is `settings.decision_min_alert_score`.
  unfoldable pub evaluate_transition :
      Option MomentumState → W → W → Option (MomentumState × Reason W)
  unfolding band_index
  evaluate_transition none score threshold =
      let desired_band = band_index score threshold in
      some (ladder desired_band, initial_observation score desired_band)
  evaluate_transition (some current) score threshold =
      if state_eq current exhausted || state_eq current invalidated
      then none
      else if state_eq current triggered || state_eq current confirmed
      then (if f.le threshold score
          then (if state_eq current triggered
              then some (confirmed, still_above threshold score)
              else none)
          else some (exhausted, fell_after_triggering threshold score))
      else if f.lt score (f.div threshold (f.lit 3))
      then some (invalidated, fell_before_triggering score (f.div threshold (f.lit 3)))
      else if leb (ladder_index current + 1) (band_index score threshold)
      then some (
        ladder (ladder_index current + 1),
        supports_advancing score (ladder (ladder_index current + 1)),
      )
      else none

-- the digit of a band index, which is at most 3
band_digit : ℕ → String
band_digit zero = "0"
band_digit (suc zero) = "1"
band_digit (suc (suc zero)) = "2"
band_digit (suc (suc (suc n))) = "3"

concat : List String → String
concat [] = ""
concat (s ∷ rest) = append s (concat rest)

module _ {W : Type 0} ⦃f : Float W⦄ where
  -- the text of a reason
  unfoldable pub reason_text : Reason W → String
  unfolding concat band_digit state_value
  reason_text (initial_observation score band) =
      concat
        ("initial observation: score=" ∷ f.fixed2 score ∷ " (band " ∷ band_digit band ∷ ")" ∷ [])
  reason_text (still_above threshold score) = concat (
      "still above trigger threshold ("
      ∷ f.fixed2 threshold
      ∷ ") on next evaluation: score="
      ∷ f.fixed2 score
      ∷ [])
  reason_text (fell_after_triggering threshold score) = concat (
      "score fell below trigger threshold ("
      ∷ f.fixed2 threshold
      ∷ ") after triggering: score="
      ∷ f.fixed2 score
      ∷ [])
  reason_text (fell_before_triggering score band_low) = concat (
      "score="
      ∷ f.fixed2 score
      ∷ " fell below the setup threshold ("
      ∷ f.fixed2 band_low
      ∷ ") before triggering"
      ∷ [])
  reason_text (supports_advancing score next) =
      concat ("score=" ∷ f.fixed2 score ∷ " supports advancing to " ∷ state_value next ∷ [])

unfoldable pub apply_transition :
    Option MomentumState → MomentumState → Result IllegalEdge (Unit {0})
unfolding is_valid_transition
apply_transition none next = ok tt
apply_transition (some current) next =
    if is_valid_transition current next then ok tt else raise (invalid_transition current next)
