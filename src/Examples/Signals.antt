-- ===== src/Examples/Signals.antt =====
-- A symbol with daily features, a bullish future and one article, and without the rest.
use ai_market_scanning_engin.Prelude.{
  ℕ, false, none, some, List, [], ◌∷◌, refl, ◌≡◌, if◌then◌else◌, str_eq,
}
use ai_market_scanning_engin.Prelude.Floats.{Whole, whole_float, Whole-IsOrdered}
use ai_market_scanning_engin.Examples.Inputs.{defaults}
use ai_market_scanning_engin.Examples.Scanning.{whole_column, features, Whole-IsRounding}
use ai_market_scanning_engin.Signals.Models.{Sources, NewsItem, high, positive, SignalFusionResult}
use ai_market_scanning_engin.Signals.Engine.{compute}
use ai_market_scanning_engin.Signals.Fused.{IsFused, compute-IsFused}

abbrev article : NewsItem
article = record {
  event_type = "ORDER_WIN";
  sentiment = positive;
  materiality = high;
  is_stale = false;
  headline = "";
  source = "";
  published_at = 1_782_899_000;
}

abbrev add_up : List Whole → Whole
add_up [] = some 0
add_up (x ∷ xs) = whole_float.add x (add_up xs)

abbrev sources : Sources ℕ Whole ℕ
sources = record {
  symbol_id = λ s. if str_eq s "TCS" then some 1 else none;
  daily = λ id. some features;
  latest_close = λ id. some 99;
  technical =
      λ id daily close. record { score = some 80; positive_reasons = []; negative_reasons = [] };
  oi_observations = λ id.
      record { instrument_type = "CE"; classification = "NEUTRAL" }
      ∷ record { instrument_type = "FUT"; classification = "LONG_BUILDUP" }
      ∷ [];
  compute_stock_rrg = λ s. [];
  news_provider = some λ s. article ∷ [];
  get_cached = λ id. none;
  fundamental = λ known. record { score = none; positive_reasons = []; negative_reasons = [] };
  repr = λ s. s;
  strftime = λ t. "";
  sum = add_up;
  utc_now = 1_782_900_000;
}

abbrev outcome : SignalFusionResult Whole
outcome = compute ⦃d = whole_column⦄ defaults sources "TCS" none

-- (80 * 25 + 100 * 15 + 75 * 15 + 100 * 10) / 65, of 100
fused_score : outcome.overall_score ≡ some (some 86)
unfolding compute
fused_score = refl

fused_missing : outcome.missing_data ≡ "sector_rrg" ∷ "market_regime" ∷ "fundamentals" ∷ []
unfolding compute
fused_missing = refl

unknown_symbol : (compute defaults sources "???" none).overall_score ≡ none
unfolding compute
unknown_symbol = refl

compute-IsFused_example : IsFused defaults add_up outcome
compute-IsFused_example =
    compute-IsFused defaults sources Whole-IsOrdered Whole-IsRounding "TCS" none
