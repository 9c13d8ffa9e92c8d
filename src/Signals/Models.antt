-- ===== src/Signals/Models.antt =====
-- app/signals/signal_models.py, and what the engine of app/signals/signal_fusion_engine.py reads: of a record
-- from elsewhere, the fields that it reads. A text that is put together is the list of its parts.
use ai_market_scanning_engin.Prelude.{ℕ, String, Bool, true, false, Option, List}
use ai_market_scanning_engin.Scanners.Contexts.{DailyFeature}

pub data DataStatus : Type 0 where
  available neutral missing : DataStatus

abbrev pub is_missing : DataStatus → Bool
is_missing missing = true
is_missing _ = false

pub record ComponentScore (W : Type 0) : Type 0 where
  pub name : String
  pub status : DataStatus
  pub score : Option W
  pub weight : W
  pub reasons : List (List String)

-- `component_scores` in the order of the dictionary, whose keys are the names
pub record SignalFusionResult (W : Type 0) : Type 0 where
  pub symbol : String
  pub overall_score : Option W
  pub component_scores : List (ComponentScore W)
  pub positive_factors : List (List String)
  pub negative_factors : List (List String)
  pub missing_data : List String
  pub confidence : W
  pub timestamp : ℕ

pub record Scored (S : Type 0) : Type 0 where
  pub score : S
  pub positive_reasons : List String
  pub negative_reasons : List String

pub record OiObservation : Type 0 where
  pub instrument_type : String
  pub classification : String

pub record RrgPoint (D : Type 0) : Type 0 where
  pub rs_ratio : Option D
  pub rs_momentum : Option D
  pub quadrant : Option String
  pub benchmark_symbol : String

pub record MarketRegimeEvidence (D : Type 0) : Type 0 where
  pub score : Option D
  pub regime : Option String

pub data Materiality : Type 0 where
  high medium low : Materiality

pub data Sentiment : Type 0 where
  positive negative neutral_tone : Sentiment

pub record NewsItem : Type 0 where
  pub event_type : String
  pub sentiment : Sentiment
  pub materiality : Materiality
  pub is_stale : Bool
  pub headline : String
  pub source : String
  pub published_at : ℕ

pub record CachedSnapshot (F : Type 0) : Type 0 where
  pub data_of : Option F
  pub fresh : Bool

-- What the repositories, the scorers, the relative rotation and the news give for a symbol or its id.
-- `F` is the fundamental data.
pub record Sources (D W F : Type 0) : Type 0 where
  pub symbol_id : String → Option ℕ
  pub daily : ℕ → Option (DailyFeature D W)
  pub latest_close : ℕ → Option D
  pub technical : ℕ → DailyFeature D W → D → Scored W
  -- the newest first
  pub oi_observations : ℕ → List OiObservation
  pub compute_stock_rrg : String → List (RrgPoint D)
  -- the news of a symbol, each normalized
  pub news_provider : Option (String → List NewsItem)
  pub get_cached : ℕ → Option (CachedSnapshot F)
  pub fundamental : F → Scored (Option W)
  -- `repr(symbol)`, and the time of an article
  pub repr : String → String
  pub strftime : ℕ → String
  -- `sum`, which Python 3.12 compensates for the rounding
  pub sum : List W → W
  pub utc_now : ℕ
