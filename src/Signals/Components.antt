-- ===== src/Signals/Components.antt =====
-- app/signals/signal_fusion_engine.py: the seven components of the score.
use ai_market_scanning_engin.Prelude.{
  ℕ, String, Bool, ◌||◌, Option, none, some, List, [], ◌∷◌, ◌++◌, map, take, if◌then◌else◌, str_eq,
  Float,
}
use ai_market_scanning_engin.Settings.{Settings}
use ai_market_scanning_engin.Scanners.Candidate.{Column}
use ai_market_scanning_engin.Scanners.Contexts.{DailyFeature}
use ai_market_scanning_engin.Scanners.Composite.{clamp, volume_part}
use ai_market_scanning_engin.Signals.Models.{
  ComponentScore, available, neutral, missing, Scored, OiObservation, RrgPoint,
  MarketRegimeEvidence, Materiality, high, medium, low, Sentiment, positive, negative, neutral_tone,
  NewsItem, CachedSnapshot, Sources,
}

unfoldable pub missing_score : {W : Type 0} → String → W → List String → ComponentScore W
missing_score name weight reason = record {
  name = name;
  status = missing;
  score = none;
  weight = weight;
  reasons = reason ∷ [];
}

unfoldable pub available_score :
    {W : Type 0} → String → W → W → List (List String) → ComponentScore W
available_score name weight score reasons = record {
  name = name;
  status = available;
  score = some score;
  weight = weight;
  reasons = reasons;
}

-- `[f"{label}{r}" for r in positive_reasons + negative_reasons]`
abbrev with_label : {S : Type 0} → List String → Scored S → List (List String)
with_label label result =
    map (λ r. label ++ (r ∷ [])) (result.positive_reasons ++ result.negative_reasons)

-- `next((o for o in observations if o.instrument_type == "FUT"), None)`
unfoldable pub first_future : List OiObservation → Option OiObservation
first_future [] = none
first_future (o ∷ rest) =
    let later = first_future rest in if str_eq o.instrument_type "FUT" then some o else later

unfoldable pub last_point : {D : Type 0} → List (RrgPoint D) → Option (RrgPoint D)
last_point [] = none
last_point (p ∷ []) = some p
last_point (p ∷ q ∷ rest) = last_point (q ∷ rest)

unfoldable pub active_items : List NewsItem → List NewsItem
active_items [] = []
active_items (item ∷ rest) =
    let others = active_items rest in if item.is_stale then others else item ∷ others

abbrev sentiment_text : Sentiment → String
sentiment_text positive = "POSITIVE"
sentiment_text negative = "NEGATIVE"
sentiment_text neutral_tone = "NEUTRAL"

module _ {D W F : Type 0} ⦃f : Float W⦄ ⦃d : Column D W⦄ (settings : Settings W)
    (sources : Sources D W F) where
  unfoldable pub score_technical : ℕ → Option (DailyFeature D W) → Option D → ComponentScore W
  unfolding missing_score available_score
  score_technical id (some daily) (some close) =
      let result = sources.technical id daily close in
      available_score "technical" settings.signal_fusion_weight_technical result.score
        (with_label ("Technical: " ∷ []) result)
  score_technical id _ _ =
      missing_score "technical" settings.signal_fusion_weight_technical
        ("no daily features/price computed yet" ∷ [])

  unfoldable pub relative_volume_of : Option (DailyFeature D W) → Option D
  relative_volume_of none = none
  relative_volume_of (some daily) = daily.relative_volume

  unfoldable pub score_volume : Option (DailyFeature D W) → ComponentScore W
  unfolding missing_score available_score relative_volume_of clamp
  score_volume daily = elim (relative_volume_of daily) [
    | none ↦
        missing_score "volume" settings.signal_fusion_weight_volume
          ("no relative_volume computed yet" ∷ [])
    | some value ↦
        let relative_volume = d.to_float value in
        available_score "volume" settings.signal_fusion_weight_volume
          (clamp (volume_part relative_volume))
          (("Volume: relative_volume=" ∷ f.fixed2 relative_volume ∷ "x average" ∷ []) ∷ [])
  ]

  unfoldable pub oi_points : String → W
  oi_points classification =
      if str_eq classification "LONG_BUILDUP" || str_eq classification "SHORT_COVERING"
      then f.lit 75
      else if str_eq classification "SHORT_BUILDUP" || str_eq classification "LONG_UNWINDING"
      then f.lit 25
      else f.lit 50

  unfoldable pub score_future : Option OiObservation → ComponentScore W
  unfolding missing_score available_score oi_points
  score_future none =
      missing_score "oi" settings.signal_fusion_weight_oi
        ("no futures OI observation available (not F&O-eligible, or not yet observed)" ∷ [])
  score_future (some futures) =
      available_score "oi" settings.signal_fusion_weight_oi (oi_points futures.classification)
        (("OI: futures " ∷ futures.classification ∷ []) ∷ [])

  unfoldable pub score_oi : ℕ → ComponentScore W
  unfolding first_future score_future
  score_oi id = score_future (first_future (take 20 (sources.oi_observations id)))

  unfoldable pub rrg_points : D → D → W
  unfolding clamp
  rrg_points rs_ratio rs_momentum =
      let ratio_z = f.sub (d.to_float rs_ratio) (f.lit 100) in
      let momentum_z = f.sub (d.to_float rs_momentum) (f.lit 100) in
      clamp (f.add (f.lit 50) (f.mul (f.div (f.add ratio_z momentum_z) (f.lit 2)) (f.lit 20)))

  unfoldable pub score_point : RrgPoint D → Option D → Option D → Option String → ComponentScore W
  unfolding missing_score available_score rrg_points
  score_point latest (some rs_ratio) (some rs_momentum) (some quadrant) =
      available_score "sector_rrg" settings.signal_fusion_weight_sector_rrg
        (rrg_points rs_ratio rs_momentum)
        (("Sector/RRG: " ∷ quadrant ∷ " vs " ∷ latest.benchmark_symbol ∷ []) ∷ [])
  score_point latest _ _ _ =
      missing_score "sector_rrg" settings.signal_fusion_weight_sector_rrg
        ("not enough history yet for a stable RRG reading" ∷ [])

  unfoldable pub score_sector_rrg : String → ComponentScore W
  unfolding missing_score last_point score_point
  score_sector_rrg symbol = elim (last_point (sources.compute_stock_rrg symbol)) [
    | none ↦
        missing_score "sector_rrg" settings.signal_fusion_weight_sector_rrg
          ("insufficient price history for RRG (own or benchmark)" ∷ [])
    | some latest ↦ score_point latest latest.rs_ratio latest.rs_momentum latest.quadrant
  ]

  unfoldable pub score_regime : Option D → Option String → ComponentScore W
  unfolding missing_score
  score_regime (some score) (some regime) = record {
    name = "market_regime";
    status = if str_eq regime "NEUTRAL" then neutral else available;
    score = some (d.to_float score);
    weight = settings.signal_fusion_weight_market_regime;
    reasons = ("Market regime: " ∷ regime ∷ []) ∷ [];
  }
  score_regime _ _ =
      missing_score "market_regime" settings.signal_fusion_weight_market_regime
        ("market regime had no evidence at all" ∷ [])

  unfoldable pub score_market_regime : Option (MarketRegimeEvidence D) → ComponentScore W
  unfolding missing_score score_regime
  score_market_regime none =
      missing_score "market_regime" settings.signal_fusion_weight_market_regime
        ("no MarketRegimeEvidence supplied for this scan cycle" ∷ [])
  score_market_regime (some evidence) = score_regime evidence.score evidence.regime

  unfoldable pub materiality_weight : Materiality → W
  materiality_weight high = f.lit 3
  materiality_weight medium = f.lit 2
  materiality_weight low = f.lit 1

  unfoldable pub sentiment_value : Sentiment → W
  sentiment_value positive = f.lit 1
  sentiment_value negative = f.sub (f.lit 0) (f.lit 1)
  sentiment_value neutral_tone = f.lit 0

  unfoldable pub news_points : List NewsItem → W
  unfolding clamp materiality_weight sentiment_value
  news_points active =
      let total_weight = sources.sum (map (λ i. materiality_weight i.materiality) active) in
      let weighted = sources.sum (
        map (λ i. f.mul (sentiment_value i.sentiment) (materiality_weight i.materiality)) active) in
      clamp (f.add (f.lit 50) (f.mul (f.div weighted total_weight) (f.lit 50)))

  unfoldable pub news_reason : NewsItem → List String
  news_reason item =
      "News: "
      ∷ item.event_type
      ∷ " ("
      ∷ sentiment_text item.sentiment
      ∷ ") — "
      ∷ item.headline
      ∷ " ["
      ∷ item.source
      ∷ ", "
      ∷ sources.strftime item.published_at
      ∷ "]"
      ∷ []

  unfoldable pub score_items : List NewsItem → ComponentScore W
  unfolding missing_score available_score news_points news_reason
  score_items [] =
      missing_score "news" settings.signal_fusion_weight_news
        ("no recent (non-stale) news found" ∷ [])
  score_items (item ∷ rest) =
      available_score "news" settings.signal_fusion_weight_news (news_points (item ∷ rest))
        (map news_reason (take 3 (item ∷ rest)))

  unfoldable pub score_news : String → ComponentScore W
  unfolding missing_score score_items active_items
  score_news symbol = elim sources.news_provider [
    | none ↦
        missing_score "news" settings.signal_fusion_weight_news
          ("no NewsProvider supplied (live-call opt-in)" ∷ [])
    | some get_news ↦ score_items (active_items (get_news symbol))
  ]

  unfoldable pub score_result : Bool → Scored (Option W) → Option W → ComponentScore W
  unfolding missing_score available_score
  score_result fresh result (some score) =
      let note = if fresh then "fresh" else "stale cache, last known value" in
      available_score "fundamentals" settings.signal_fusion_weight_fundamentals score
        (with_label ("Fundamentals (" ∷ note ∷ "): " ∷ []) result)
  score_result fresh result none =
      missing_score "fundamentals" settings.signal_fusion_weight_fundamentals
        ("fundamental tier is UNKNOWN (no usable factors)" ∷ [])

  unfoldable pub score_cached : Option (CachedSnapshot F) → ComponentScore W
  unfolding missing_score score_result
  score_cached none =
      missing_score "fundamentals" settings.signal_fusion_weight_fundamentals
        ("no cached fundamental snapshot yet" ∷ [])
  score_cached (some cached) = elim cached.data_of [
    | none ↦
        missing_score "fundamentals" settings.signal_fusion_weight_fundamentals
          ("no cached fundamental snapshot yet" ∷ [])
    | some data_of ↦
        let result = sources.fundamental data_of in score_result cached.fresh result result.score
  ]
