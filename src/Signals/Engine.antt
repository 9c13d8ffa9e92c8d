-- ===== src/Signals/Engine.antt =====
-- app/signals/signal_fusion_engine.py: `compute` and `_assemble`.
use ai_market_scanning_engin.Prelude.{
  String, ◌&&◌, Option, none, some, List, [], ◌∷◌, ◌++◌, map, if◌then◌else◌, Float, ℕ,
}
use ai_market_scanning_engin.Settings.{Settings}
use ai_market_scanning_engin.Scanners.Candidate.{Column}
use ai_market_scanning_engin.Scanners.Composite.{clamp}
use ai_market_scanning_engin.Signals.Models.{
  ComponentScore, SignalFusionResult, MarketRegimeEvidence, Sources, is_missing,
}
use ai_market_scanning_engin.Signals.Components.{
  missing_score, score_technical, score_volume, score_oi, score_sector_rrg, score_market_regime,
  score_news, score_cached,
}

module _ {W : Type 0} where
  -- the components that have data
  unfoldable pub available_of : List (ComponentScore W) → List (ComponentScore W)
  available_of [] = []
  available_of (c ∷ rest) =
      let others = available_of rest in if is_missing c.status then others else c ∷ others

  unfoldable pub missing_of : List (ComponentScore W) → List String
  missing_of [] = []
  missing_of (c ∷ rest) =
      let others = missing_of rest in if is_missing c.status then c.name ∷ others else others

  abbrev pub weights_of : List (ComponentScore W) → List W
  weights_of = map (λ c. c.weight)

-- `_weights`, in the order of the dictionary
unfoldable pub weights : {W : Type 0} → Settings W → List (String × W)
weights settings =
    ("technical", settings.signal_fusion_weight_technical)
    ∷ ("volume", settings.signal_fusion_weight_volume)
    ∷ ("oi", settings.signal_fusion_weight_oi)
    ∷ ("sector_rrg", settings.signal_fusion_weight_sector_rrg)
    ∷ ("market_regime", settings.signal_fusion_weight_market_regime)
    ∷ ("news", settings.signal_fusion_weight_news)
    ∷ ("fundamentals", settings.signal_fusion_weight_fundamentals)
    ∷ []

module _ {W : Type 0} ⦃f : Float W⦄ where
  -- `score or 0.0`
  unfoldable pub score_or_zero : Option W → W
  score_or_zero none = f.lit 0
  score_or_zero (some x) = if f.le x (f.lit 0) && f.le (f.lit 0) x then f.lit 0 else x

  -- `score is not None and score >= 50`, and `score < 50` or a NaN
  unfoldable pub split_factors : List (ComponentScore W) → List (List String) × List (List String)
  split_factors [] = ([], [])
  split_factors (c ∷ rest) =
      let others = split_factors rest in
      elim c.score [
        | none ↦ others
        | some score ↦
            if f.le (f.lit 50) score
            then (c.reasons ++ others.0, others.1)
            else (others.0, c.reasons ++ others.1)
      ]

  module _ {D F : Type 0} (sources : Sources D W F) where
    unfoldable pub overall_of : List (ComponentScore W) → Option W
    unfolding score_or_zero clamp
    overall_of [] = none
    overall_of (c ∷ rest) =
        let available_weight = sources.sum (weights_of (c ∷ rest)) in
        let weighted_sum =
          sources.sum (map (λ k. f.mul (score_or_zero k.score) k.weight) (c ∷ rest)) in
        if f.lt (f.lit 0) available_weight
        then some (f.round2 (clamp (f.div weighted_sum available_weight)))
        else none

    unfoldable pub confidence_of : List (ComponentScore W) → W
    unfolding available_of
    confidence_of components =
        let total = sources.sum (weights_of components) in
        if f.lt (f.lit 0) total
        then f.round2
            (f.mul (f.div (sources.sum (weights_of (available_of components))) total) (f.lit 100))
        else f.lit 0

    unfoldable pub assemble : String → List (ComponentScore W) → SignalFusionResult W
    unfolding available_of missing_of overall_of confidence_of split_factors
    assemble symbol components =
        let found = split_factors (available_of components) in
        record {
          symbol = symbol;
          overall_score = overall_of (available_of components);
          component_scores = components;
          positive_factors = found.0;
          negative_factors = found.1;
          missing_data = missing_of components;
          confidence = confidence_of components;
          timestamp = sources.utc_now;
        }

module _ {D W F : Type 0} ⦃f : Float W⦄ ⦃d : Column D W⦄ (settings : Settings W)
    (sources : Sources D W F) where
  -- by the id of the symbol, if it is known
  unfoldable pub components_of :
      String → Option (MarketRegimeEvidence D) → Option ℕ → List (ComponentScore W)
  unfolding weights missing_score score_technical score_volume score_oi score_sector_rrg
      score_market_regime score_news score_cached
  components_of symbol market_regime none =
      map (λ p. missing_score p.0 p.1 ("unknown symbol " ∷ sources.repr symbol ∷ []))
        (weights settings)
  components_of symbol market_regime (some id) =
      let daily = sources.daily id in
      score_technical settings sources id daily (sources.latest_close id)
      ∷ score_volume settings sources daily
      ∷ score_oi settings sources id
      ∷ score_sector_rrg settings sources symbol
      ∷ score_market_regime settings sources market_regime
      ∷ score_news settings sources symbol
      ∷ score_cached settings sources (sources.get_cached id)
      ∷ []

  unfoldable pub compute : String → Option (MarketRegimeEvidence D) → SignalFusionResult W
  unfolding components_of assemble
  compute symbol market_regime =
      assemble sources symbol (components_of symbol market_regime (sources.symbol_id symbol))
