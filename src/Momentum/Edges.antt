-- ===== src/Momentum/Edges.antt =====
-- Which edges the state machine takes: the proofs about one evaluation.
use ai_market_scanning_engin.Prelude.{◌≡◌, refl, Option, none, some, Float, arith, ok}
use ai_market_scanning_engin.Momentum.States.{MomentumState, setup}
use ai_market_scanning_engin.Momentum.Machine.{evaluate_transition, apply_transition, Reason}

module _ {W : Type 0} ⦃f : Float W⦄ where
  -- Every transition that `evaluate_transition` proposes passes the guard `apply_transition`: the
  -- guard never raises on what the machine itself proposes, from any current state.
  pub apply_transition-evaluate_transition :
      (current : Option MomentumState) (score threshold : W) {next : MomentumState} {r : Reason W}
      → evaluate_transition current score threshold ≡ some (next, r)
      → apply_transition current next ≡ ok tt
  unfolding evaluate_transition apply_transition
  apply_transition-evaluate_transition none score threshold e = refl
  apply_transition-evaluate_transition (some setup) score threshold e = ground arith
  apply_transition-evaluate_transition (some _) score threshold e = ground arith
