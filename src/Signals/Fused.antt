-- ===== src/Signals/Fused.antt =====
-- app/signals/signal_fusion_engine.py: what a result of `compute` promises.
use ai_market_scanning_engin.Signals.Engine.{
  overall_of, components_of, weights, weights_of, available_of, score_or_zero, compute, missing_of,
  assemble,
}
use ai_market_scanning_engin.Prelude.{
  length, ◌+◌, ap, ◌∷◌, arith, ℕ, ◌≡◌, refl, String, false, Option, none, some, List, Float,
  IsOrdered, ◌≼◌, map, ◌↔◌, [], All, ◌⊎◌, Bool-cases, inl, inr, ◌∙◌,
}
use mathlib.Core.Path.{ap₂}
use ai_market_scanning_engin.Signals.Named.{
  IsScoredOnce, named, IsComponent, score_technical-IsComponent, score_volume-IsComponent,
  score_oi-IsComponent, score_sector_rrg-IsComponent, score_market_regime-IsComponent,
  score_news-IsComponent, score_cached-IsComponent,
}
use ai_market_scanning_engin.Settings.{Settings}
use ai_market_scanning_engin.Scanners.Candidate.{Column}
use ai_market_scanning_engin.Scanners.Composite.{clamp}
use ai_market_scanning_engin.Scanners.Bounds.{IsRounding}
use ai_market_scanning_engin.Signals.Models.{
  ComponentScore, MarketRegimeEvidence, Sources, SignalFusionResult,
}
use ai_market_scanning_engin.Signals.Components.{missing_score}

module _ {W : Type 0} ⦃f : Float W⦄ where
  -- from 0 to 100, and no NaN
  abbrev pub IsPercentage : W → Type 0
  IsPercentage x = (f.lit 0 ≼ x) × (x ≼ f.lit 100)

  clamp-IsPercentage : IsOrdered W → IsRounding W → (x : W) → IsPercentage (clamp x)
  unfolding clamp
  clamp-IsPercentage laws rounding x =
      let zero = rounding.lits 0 0 (omega arith) in
      let bounds = rounding.lits 0 100 (omega arith) in
      let hundred = rounding.lits 100 100 (omega arith) in
      ground (
        arith,
        laws.strict x (f.lit 100),
        laws.strict (f.lit 0) x,
        laws.strict (f.lit 0) (f.lit 100),
      )

-- what is in the option, if anything is
abbrev pub Holds : {W : Type 0} → (W → Type 0) → Option W → Type 0
Holds P none = Unit
Holds P (some x) = P x

module _ {W : Type 0} ⦃f : Float W⦄ where
  -- What a result says of its components.
  pub record IsFused (settings : Settings W) (sum : List W → W) (r : SignalFusionResult W)
      : Type 0 where
    -- the seven components with their configured weights
    pub complete : map named r.component_scores ≡ weights settings
    -- each has a score, or is missing
    pub scored : All IsScoredOnce r.component_scores
    -- those that `missing_data` does not name are available
    pub counted : length r.missing_data + length (available_of r.component_scores) ≡ 7
    pub bounded : Holds IsPercentage r.overall_score
    -- no score, just when nothing with a positive weight is available
    pub scoreless : (r.overall_score ≡ none) ↔ (
        (available_of r.component_scores ≡ [])
        ⊎ (f.lt (f.lit 0) (sum (weights_of (available_of r.component_scores))) ≡ false))

module _ {D W F : Type 0} ⦃f : Float W⦄ ⦃d : Column D W⦄ (settings : Settings W)
    (sources : Sources D W F) where
  overall_of-IsPercentage :
      IsOrdered W
      → IsRounding W
      → (cs : List (ComponentScore W)) → Holds IsPercentage (overall_of sources cs)
  unfolding overall_of
  overall_of-IsPercentage laws rounding [] = tt
  overall_of-IsPercentage laws rounding (c ∷ cs) =
      let weight = sources.sum (weights_of (c ∷ cs)) in
      let mean =
        f.div (sources.sum (map (λ k. f.mul (score_or_zero k.score) k.weight) (c ∷ cs))) weight in
      let bounds = clamp-IsPercentage laws rounding mean in
      elim (Bool-cases (f.lt (f.lit 0) weight)) [
        | inl e ↦
            rw e (rounding.above 0 (clamp mean) bounds.0, rounding.below 100 (clamp mean) bounds.1)
        | inr e ↦ rw e tt
      ]

  overall_of-none :
      (cs : List (ComponentScore W))
      → (overall_of sources cs ≡ none)
        ↔ ((cs ≡ []) ⊎ (f.lt (f.lit 0) (sources.sum (weights_of cs)) ≡ false))
  unfolding overall_of
  overall_of-none [] = ground arith
  overall_of-none (c ∷ cs) = ground arith

  named-components_of :
      (symbol : String) (market_regime : Option (MarketRegimeEvidence D)) (known : Option ℕ)
      → map named (components_of settings sources symbol market_regime known) ≡ weights settings
  unfolding components_of weights missing_score IsComponent
  named-components_of symbol market_regime none = refl
  named-components_of symbol market_regime (some id) =
      let daily = sources.daily id in
      (ap₂ ◌∷◌ (score_technical-IsComponent settings sources id daily (sources.latest_close id)).0 (
        ap₂ ◌∷◌ (score_volume-IsComponent settings sources daily).0 (
          ap₂ ◌∷◌ (score_oi-IsComponent settings sources id).0 (
            ap₂ ◌∷◌ (score_sector_rrg-IsComponent settings sources symbol).0 (
              ap₂ ◌∷◌ (score_market_regime-IsComponent settings sources market_regime).0 (
                ap₂ ◌∷◌ (score_news-IsComponent settings sources symbol).0 (
                  ap (λ x. x ∷ [])
                    (score_cached-IsComponent settings sources (sources.get_cached id)).0)))))))

  components_of-IsScoredOnce :
      (symbol : String) (market_regime : Option (MarketRegimeEvidence D)) (known : Option ℕ)
      → All IsScoredOnce (components_of settings sources symbol market_regime known)
  unfolding components_of weights missing_score IsScoredOnce IsComponent
  components_of-IsScoredOnce symbol market_regime none =
      (refl, (refl, (refl, (refl, (refl, (refl, (refl, tt)))))))
  components_of-IsScoredOnce symbol market_regime (some id) =
      let daily = sources.daily id in
      (
        (score_technical-IsComponent settings sources id daily (sources.latest_close id)).1,
        (
          (score_volume-IsComponent settings sources daily).1,
          (
            (score_oi-IsComponent settings sources id).1,
            (
              (score_sector_rrg-IsComponent settings sources symbol).1,
              (
                (score_market_regime-IsComponent settings sources market_regime).1,
                (
                  (score_news-IsComponent settings sources symbol).1,
                  ((score_cached-IsComponent settings sources (sources.get_cached id)).1, tt),
                ),
              ),
            ),
          ),
        ),
      )

  -- those with data and those that `missing_data` names are all there are
  length-available_of :
      (cs : List (ComponentScore W)) → length (missing_of cs) + length (available_of cs) ≡ length cs
  unfolding available_of missing_of
  length-available_of [] = refl
  length-available_of (c ∷ cs) = ground (arith, length-available_of cs)

  length-components_of :
      (symbol : String) (market_regime : Option (MarketRegimeEvidence D)) (known : Option ℕ)
      → length (components_of settings sources symbol market_regime known) ≡ 7
  unfolding components_of weights
  length-components_of symbol market_regime none = refl
  length-components_of symbol market_regime (some id) = refl

  -- Whatever the symbol and its data are, a NaN included, the result of `compute` has the seven
  -- components under their names with the weights of the settings; each has a score or is missing, and
  -- `missing_data` has as many names as there are components without data. The overall score is from 0
  -- to 100 when there is one, and there is none just when no component is available or the available
  -- ones have no positive weight in sum. The floats are ordered, and `round` keeps whole bounds.
  pub compute-IsFused :
      IsOrdered W
      → IsRounding W
      → (symbol : String) (market_regime : Option (MarketRegimeEvidence D))
      → IsFused settings sources.sum (compute settings sources symbol market_regime)
  unfolding compute assemble
  compute-IsFused laws rounding symbol market_regime =
      let known = sources.symbol_id symbol in
      let cs = components_of settings sources symbol market_regime known in
      record {
        complete = named-components_of symbol market_regime known;
        scored = components_of-IsScoredOnce symbol market_regime known;
        counted = length-available_of cs ∙ length-components_of symbol market_regime known;
        bounded = overall_of-IsPercentage laws rounding (available_of cs);
        scoreless = overall_of-none (available_of cs);
      }
