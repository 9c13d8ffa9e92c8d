-- ===== src/Signals/Named.antt =====
-- app/signals/signal_fusion_engine.py: the names and weights of the components.
use ai_market_scanning_engin.Scanners.Contexts.{DailyFeature}
use ai_market_scanning_engin.Prelude.{arith, ℕ, ◌≡◌, String, true, false, Option, none, some, Float}
use ai_market_scanning_engin.Settings.{Settings}
use ai_market_scanning_engin.Scanners.Candidate.{Column}
use ai_market_scanning_engin.Signals.Models.{
  ComponentScore, MarketRegimeEvidence, Sources, is_missing, CachedSnapshot, OiObservation,
}
use ai_market_scanning_engin.Signals.Components.{
  missing_score, available_score, score_technical, score_volume, score_oi, score_sector_rrg,
  score_market_regime, score_news, score_cached, score_point, score_regime, score_items,
  score_result, score_future,
}

module _ {W : Type 0} ⦃f : Float W⦄ where
  -- a score exactly when there are data
  unfoldable pub IsScoredOnce : ComponentScore W → Type 0
  IsScoredOnce c = elim c.score [
    | none ↦ is_missing c.status ≡ true
    | some _ ↦ is_missing c.status ≡ false
  ]

  abbrev pub named : ComponentScore W → String × W
  named c = (c.name, c.weight)

  -- the component has this name and this weight
  unfoldable pub IsComponent : String × W → ComponentScore W → Type 0
  unfolding IsScoredOnce
  IsComponent p c = (named c ≡ p) × IsScoredOnce c

module _ {D W F : Type 0} ⦃f : Float W⦄ ⦃d : Column D W⦄ (settings : Settings W)
    (sources : Sources D W F) where
  pub score_technical-IsComponent :
      (id : ℕ) (daily : Option (DailyFeature D W)) (close : Option D)
      → IsComponent
          ("technical", settings.signal_fusion_weight_technical)
          (score_technical settings sources id daily close)
  unfolding score_technical IsComponent IsScoredOnce missing_score available_score
  score_technical-IsComponent id daily close = ground arith

  pub score_volume-IsComponent :
      (daily : Option (DailyFeature D W))
      → IsComponent
          ("volume", settings.signal_fusion_weight_volume)
          (score_volume settings sources daily)
  unfolding score_volume IsComponent IsScoredOnce missing_score available_score
  score_volume-IsComponent daily = ground arith

  score_future-IsComponent :
      (futures : Option OiObservation)
      → IsComponent ("oi", settings.signal_fusion_weight_oi) (score_future settings sources futures)
  unfolding score_future IsComponent IsScoredOnce missing_score available_score
  score_future-IsComponent futures = ground arith

  pub score_oi-IsComponent :
      (id : ℕ) → IsComponent ("oi", settings.signal_fusion_weight_oi) (score_oi settings sources id)
  unfolding score_oi
  score_oi-IsComponent id = score_future-IsComponent _

  pub score_sector_rrg-IsComponent :
      (symbol : String)
      → IsComponent
          ("sector_rrg", settings.signal_fusion_weight_sector_rrg)
          (score_sector_rrg settings sources symbol)
  unfolding score_sector_rrg score_point IsComponent IsScoredOnce missing_score available_score
  score_sector_rrg-IsComponent symbol = ground arith

  pub score_market_regime-IsComponent :
      (evidence : Option (MarketRegimeEvidence D))
      → IsComponent
          ("market_regime", settings.signal_fusion_weight_market_regime)
          (score_market_regime settings sources evidence)
  unfolding score_market_regime score_regime IsComponent IsScoredOnce missing_score available_score
  score_market_regime-IsComponent evidence = ground arith

  pub score_news-IsComponent :
      (symbol : String)
      → IsComponent
          ("news", settings.signal_fusion_weight_news)
          (score_news settings sources symbol)
  unfolding score_news score_items IsComponent IsScoredOnce missing_score available_score
  score_news-IsComponent symbol = ground arith

  pub score_cached-IsComponent :
      (cached : Option (CachedSnapshot F))
      → IsComponent
          ("fundamentals", settings.signal_fusion_weight_fundamentals)
          (score_cached settings sources cached)
  unfolding score_cached score_result IsComponent IsScoredOnce missing_score available_score
  score_cached-IsComponent cached = ground arith
