-- ===== src/Scanners/Composite.antt =====
-- The composite score that app/scanner/breakout_scanner.py, vcp_scanner.py, momentum_scanner.py and
-- orb_scanner.py each spell out.
use ai_market_scanning_engin.Prelude.{Bool, false, Option, none, some, if◌then◌else◌, Float}
use ai_market_scanning_engin.Settings.{Settings}
use ai_market_scanning_engin.Scanners.Candidate.{Column}
use ai_market_scanning_engin.Scanners.Contexts.{DailyFeature}

module _ {W : Type 0} ⦃f : Float W⦄ where
  -- `max(0.0, min(100.0, x))`
  unfoldable pub clamp : W → W
  clamp x =
      let m = if f.lt x (f.lit 100) then x else f.lit 100 in if f.lt (f.lit 0) m then m else f.lit 0

  -- `round(min(max(total, 0.0), 100.0), 2)`
  unfoldable pub rounded_total : W → W
  rounded_total total =
      let m = if f.lt total (f.lit 0) then f.lit 0 else total in
      f.round2 (if f.lt (f.lit 100) m then f.lit 100 else m)

  -- `min(x / 2.0, 1.0) * 100`
  abbrev pub volume_part : W → W
  volume_part x =
      let half = f.div x (f.lit 2) in
      f.mul (if f.lt (f.lit 1) half then f.lit 1 else half) (f.lit 100)

  -- `(x + 100) / 2`
  abbrev pub momentum_part : W → W
  momentum_part x = f.div (f.add x (f.lit 100)) (f.lit 2)

  -- the sum of the six parts, added from the left
  unfoldable pub weighted : Settings W → W → W → W → W → W → W → W
  weighted settings trend momentum volume volatility relative_strength support_resistance =
      f.add
        (f.add
          (f.add
            (f.add
              (f.add (f.mul trend settings.scanner_score_weight_trend)
                (f.mul momentum settings.scanner_score_weight_momentum))
              (f.mul volume settings.scanner_score_weight_volume))
            (f.mul volatility settings.scanner_score_weight_volatility))
          (f.mul relative_strength settings.scanner_score_weight_relative_strength))
        (f.mul support_resistance settings.scanner_score_weight_support_resistance)

module _ {D W : Type 0} ⦃f : Float W⦄ ⦃d : Column D W⦄ where
  -- `float(x or 0)`
  abbrev pub or_zero : Option D → W
  or_zero none = f.lit 0
  or_zero (some x) = if d.is_zero x then f.lit 0 else d.to_float x

  -- `50.0 if x is None else max(0.0, min(100.0, 50.0 + float(x)))`
  abbrev pub strength_part : Option D → W
  strength_part none = f.lit 50
  strength_part (some x) = clamp (f.add (f.lit 50) (d.to_float x))

  unfoldable pub resistance_distance_pct : Option D → Option D → Option W
  resistance_distance_pct none _ = none
  resistance_distance_pct (some resistance) none = none
  resistance_distance_pct (some resistance) (some price) =
      if d.is_zero resistance
      then none
      else some (
          f.mul
            (f.div (f.abs (f.sub (d.to_float price) (d.to_float resistance)))
              (d.to_float resistance))
            (f.lit 100))

  module _ (settings : Settings W) where
    unfoldable pub within_resistance_proximity : Option D → Option D → Bool
    unfolding resistance_distance_pct
    within_resistance_proximity resistance price = elim (resistance_distance_pct resistance price) [
      | none ↦ false
      | some distance_pct ↦ f.le distance_pct settings.scanner_breakout_resistance_proximity_pct
    ]

    unfoldable pub resistance_proximity_score : Option D → Option D → W
    unfolding resistance_distance_pct clamp
    resistance_proximity_score resistance price = elim (resistance_distance_pct resistance price) [
      | none ↦ f.lit 0
      | some distance_pct ↦
          let threshold = settings.scanner_breakout_resistance_proximity_pct in
          if f.le threshold (f.lit 0)
          then f.lit 0
          else clamp (f.sub (f.lit 100) (f.mul (f.div distance_pct threshold) (f.lit 100)))
    ]

    unfoldable pub daily_total : DailyFeature D W → Option D → W
    unfolding weighted clamp resistance_proximity_score
    daily_total features price =
        weighted settings (or_zero features.trend_strength)
          (momentum_part (or_zero features.momentum_score))
          (volume_part (or_zero features.relative_volume))
          (if features.atr_expansion
            then f.lit 100
            else (if features.atr_contraction then f.lit 30 else f.lit 60))
          (strength_part features.rs_vs_nifty)
          (resistance_proximity_score features.resistance_level price)

    -- without daily features every part has its default
    unfoldable pub orb_total : Option (DailyFeature D W) → Option D → W
    unfolding weighted daily_total
    orb_total none price =
        weighted settings (f.lit 0) (f.lit 50) (f.lit 0) (f.lit 60) (f.lit 50) (f.lit 0)
    orb_total (some features) price = daily_total features price
