-- ===== src/Momentum/Lifecycle.antt =====
-- A symbol's life across repeated evaluations, as `MomentumStateEngine.evaluate` drives the machine.
use ai_market_scanning_engin.Prelude.{
  ℕ, suc, ◌+◌, ◌≤◌, ◌<◌, ◌≡◌, refl, false, Option, none, some, Float, ◌⊎◌, inl, inr, arith, ◌≼◌,
  Option-cases, IsOrdered, List, [], ◌∷◌, length, count_if, All, take, take-nil, ap, sym, ◌∙◌,
}
use ai_market_scanning_engin.Momentum.States.{
  MomentumState, setup, watch, activating, triggered, confirmed, exhausted, invalidated,
  is_alert_worthy,
}
use ai_market_scanning_engin.Momentum.Machine.{
  evaluate_transition, Reason, initial_observation, supports_advancing, still_above,
}

-- how far along its life a symbol is
abbrev pub rank : Option MomentumState → ℕ
rank none = 0
rank (some setup) = 1
rank (some watch) = 2
rank (some activating) = 3
rank (some triggered) = 4
rank (some confirmed) = 5
rank (some _) = 6

-- how many alerts may still come
abbrev alerts_left : Option MomentumState → ℕ
alerts_left (some triggered) = 1
alerts_left (some confirmed) = 0
alerts_left (some exhausted) = 0
alerts_left (some invalidated) = 0
alerts_left _ = 2

-- the states entered while the score stays at or above the threshold
abbrev pub way_up : Option MomentumState → List MomentumState
way_up none = triggered ∷ confirmed ∷ []
way_up (some setup) = watch ∷ activating ∷ triggered ∷ confirmed ∷ []
way_up (some watch) = activating ∷ triggered ∷ confirmed ∷ []
way_up (some activating) = triggered ∷ confirmed ∷ []
way_up (some triggered) = confirmed ∷ []
way_up (some _) = []

bounds_cons :
    (current : Option MomentumState) (next : MomentumState) (states : List MomentumState)
    → (rank current < rank (some next))
      × (count_if is_alert_worthy (next ∷ []) + alerts_left (some next) ≤ alerts_left current)
    → (length states + rank (some next) ≤ 6)
      × (count_if is_alert_worthy states ≤ alerts_left (some next))
    → (length (next ∷ states) + rank current ≤ 6)
      × (count_if is_alert_worthy (next ∷ states) ≤ alerts_left current)
bounds_cons current next states step rest = ground arith

module _ {W : Type 0} ⦃f : Float W⦄ where
  -- The states that a sequence of scores makes a symbol enter, oldest first.
  unfoldable pub entered : W → Option MomentumState → List W → List MomentumState
  entered threshold current [] = []
  entered threshold current (score ∷ scores) = elim (evaluate_transition current score threshold) [
    | none ↦ entered threshold current scores
    | some (next, r) ↦ next ∷ entered threshold (some next) scores
  ]

  rank-evaluate_transition :
      (current : Option MomentumState) (score threshold : W) {next : MomentumState} {r : Reason W}
      → evaluate_transition current score threshold ≡ some (next, r)
      → (rank current < rank (some next))
        × (count_if is_alert_worthy (next ∷ []) + alerts_left (some next) ≤ alerts_left current)
  unfolding evaluate_transition
  rank-evaluate_transition none score threshold e = ground arith
  rank-evaluate_transition (some setup) score threshold e = ground arith
  rank-evaluate_transition (some _) score threshold e = ground arith

  entered-hold :
      (threshold : W) (current : Option MomentumState) (score : W) (scores : List W)
      → evaluate_transition current score threshold ≡ none
      → entered threshold current (score ∷ scores) ≡ entered threshold current scores
  unfolding entered
  entered-hold threshold current score scores e = rw (e, entered)

  entered-move :
      (threshold : W) (current : Option MomentumState) (score : W) (scores : List W)
      (next : MomentumState) (r : Reason W)
      → evaluate_transition current score threshold ≡ some (next, r)
      → entered threshold current (score ∷ scores) ≡ next ∷ entered threshold (some next) scores
  unfolding entered
  entered-move threshold current score scores next r e = rw (e, entered)

  entered_bounds :
      (threshold : W) (current : Option MomentumState) (scores : List W)
      → let states = entered threshold current scores in
        (length states + rank current ≤ 6) × (count_if is_alert_worthy states ≤ alerts_left current)
  unfolding entered
  entered_bounds threshold none [] = omega arith
  entered_bounds threshold (some setup) [] = omega arith
  entered_bounds threshold (some _) [] = omega arith
  entered_bounds threshold current (score ∷ scores) =
      elim (Option-cases (evaluate_transition current score threshold)) [
        | inl e ↦
            rw (entered-hold threshold current score scores e)
              (entered_bounds threshold current scores)
        | inr ((next, r), e) ↦ rw (entered-move threshold current score scores next r e) (
            bounds_cons current next (entered threshold (some next) scores)
              (rank-evaluate_transition current score threshold e)
              (entered_bounds threshold (some next) scores))
      ]

  -- Whatever scores a symbol sees, its life has at most six transitions, and at most two of them
  -- are to alert-worthy states.
  pub entered_bounded :
      (threshold : W) (scores : List W)
      → let states = entered threshold none scores in
        (length states ≤ 6) × (count_if is_alert_worthy states ≤ 2)
  entered_bounded threshold scores = omega (arith, entered_bounds threshold none scores)

  module _ (laws : IsOrdered W) (threshold : W)
      (third : f.div threshold (f.lit 3) ≼ threshold) where
    stays : (score : W) → threshold ≼ score → f.lt score (f.div threshold (f.lit 3)) ≡ false
    stays score h = laws.not-lt_of_le _ _ (laws.chain _ _ _ h third)

    evaluate_transition-above :
        (current : Option MomentumState) (score : W)
        → threshold ≼ score
        → (evaluate_transition current score threshold ≡ none) × (way_up current ≡ [])
          ⊎ (next : MomentumState) × (r : Reason W) × (evaluate_transition current score threshold
              ≡ some (next, r))
            × (way_up current ≡ next ∷ way_up (some next))
    unfolding evaluate_transition
    evaluate_transition-above none score h =
        inr (triggered, initial_observation score 3, ground arith, refl)
    evaluate_transition-above (some setup) score h =
        inr (watch, supports_advancing score watch, ground (arith, stays score h), refl)
    evaluate_transition-above (some watch) score h =
        inr (activating, supports_advancing score activating, ground (arith, stays score h), refl)
    evaluate_transition-above (some activating) score h =
        inr (triggered, supports_advancing score triggered, ground (arith, stays score h), refl)
    evaluate_transition-above (some triggered) score h =
        inr (confirmed, still_above threshold score, ground arith, refl)
    evaluate_transition-above (some confirmed) score h = inl (ground arith, refl)
    evaluate_transition-above (some _) score h = inl (refl, refl)

    -- While every score is at or above the threshold (of which a third is not above it), a symbol
    -- takes the ladder one step at a time up to CONFIRMED, from wherever it stands, and stays there:
    -- no stage is skipped, none is repeated, and a finished life stays finished.
    pub entered_above :
        (current : Option MomentumState) (scores : List W)
        → All (λ s. threshold ≼ s) scores
        → entered threshold current scores ≡ take (length scores) (way_up current)
    unfolding entered
    entered_above current [] h = refl
    entered_above current (score ∷ scores) h = elim (evaluate_transition-above current score h.0) [
      | inl (e, stop) ↦
          entered-hold threshold current score scores e
          ∙ entered_above current scores h.1
          ∙ ap (take (length scores)) stop
          ∙ take-nil (length scores)
          ∙ sym (ap (take (suc (length scores))) stop)
      | inr (next, r, e, up) ↦
          entered-move threshold current score scores next r e
          ∙ ap (◌∷◌ next) (entered_above (some next) scores h.1)
          ∙ sym (ap (take (suc (length scores))) up)
    ]
