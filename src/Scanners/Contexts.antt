-- ===== src/Scanners/Contexts.antt =====
-- app/scanner/models.py, app/scanner/orb_scanner.py (`OrbScanContext`) and the columns of
-- app/models/daily_feature.py that the listed strategies read. A feature is a `Decimal` column, null until
-- there is history enough for it.
use ai_market_scanning_engin.Prelude.{
  ℕ, Bool, Option, none, some, List, [], ◌∷◌, ◌==◌, if◌then◌else◌,
}
use ai_market_scanning_engin.Values.{Snapshot, Value, null, text}
use ai_market_scanning_engin.Scanning.Models.{Symbol}
use ai_market_scanning_engin.Scanners.Candidate.{
  Column, Texts, CandidateContext, text_or_null, to_feature_snapshot,
}

-- `columns` is the snapshot of the whole row.
pub record DailyFeature (D W : Type 0) : Type 0 where
  pub date : ℕ
  pub ema20 : Option D
  pub ema50 : Option D
  pub ema200 : Option D
  pub adx14 : Option D
  pub relative_volume : Option D
  pub resistance_level : Option D
  pub momentum_score : Option D
  pub trend_strength : Option D
  pub breakout_level : Option D
  pub support_level : Option D
  pub rs_vs_nifty : Option D
  pub atr_expansion : Bool
  pub atr_contraction : Bool
  pub pattern_vcp : Bool
  pub columns : Snapshot W

pub record SessionFeature (D W : Type 0) : Type 0 where
  pub date : ℕ
  pub opening_range_high : Option D
  pub opening_range_low : Option D
  pub session_vwap : Option D
  pub columns : Snapshot W

pub record ScanContext (D W : Type 0) : Type 0 where
  pub symbol : Symbol
  pub features : DailyFeature D W
  pub price : Option D

pub record OrbScanContext (D W : Type 0) : Type 0 where
  pub symbol : Symbol
  pub session_feature : SessionFeature D W
  -- the close and the date of the latest daily price
  pub latest_price : Option (D × ℕ)
  pub daily_feature : Option (DailyFeature D W)

-- A context of one of the three classes, which a strategy tells apart by `isinstance`.
pub data Context (D W : Type 0) : Type 0 where
  daily_context : ScanContext D W → Context D W
  orb_context : OrbScanContext D W → Context D W
  candidate_context : CandidateContext D W → Context D W

-- The rows that the repositories read for a symbol's id, with the latest close and its date.
pub record Rows (D W : Type 0) : Type 0 where
  pub features_by_id : ℕ → Option (DailyFeature D W)
  pub prices_by_id : ℕ → Option (D × ℕ)
  pub sessions_by_id : ℕ → Option (SessionFeature D W)

module _ {D : Type 0} where
  abbrev pub close_of : Option (D × ℕ) → Option D
  close_of none = none
  close_of (some (close, date)) = some close

module _ {D W : Type 0} where
  abbrev pub symbol_of : Context D W → Symbol
  symbol_of (daily_context c) = c.symbol
  symbol_of (orb_context c) = c.symbol
  symbol_of (candidate_context c) = c.symbol

  -- `day` is the date of an instant in the market's time zone
  unfoldable pub scan_date_of : (ℕ → ℕ) → Context D W → ℕ
  scan_date_of day (daily_context c) = c.features.date
  scan_date_of day (orb_context c) = c.session_feature.date
  scan_date_of day (candidate_context c) = day c.candidate.timestamp

  -- `contexts.get(id)` of the dict that `build_context_bulk` fills; symbols with one id have the same rows
  unfoldable pub bulk : (Symbol → Option (Context D W)) → List Symbol → ℕ → Option (Context D W)
  bulk build [] id = none
  bulk build (s ∷ rest) id =
      let later = bulk build rest id in
      elim later [ some c ↦ some c | none ↦ if s.id == id then build s else none ]

  unfoldable pub build_daily : Rows D W → Symbol → Option (Context D W)
  build_daily rows symbol = elim (rows.features_by_id symbol.id) [
    | none ↦ none
    | some features ↦ some (
        daily_context (record {
          symbol = symbol;
          features = features;
          price = close_of (rows.prices_by_id symbol.id);
        }))
  ]

  unfoldable pub build_orb : Rows D W → Symbol → Option (Context D W)
  build_orb rows symbol = elim (rows.sessions_by_id symbol.id) [
    | none ↦ none
    | some session_feature ↦ some (
        orb_context (record {
          symbol = symbol;
          session_feature = session_feature;
          latest_price = rows.prices_by_id symbol.id;
          daily_feature = rows.features_by_id symbol.id;
        }))
  ]

module _ {D W : Type 0} ⦃d : Column D W⦄ where
  abbrev pub date_or_null : Texts → Option (D × ℕ) → Value W
  date_or_null texts none = null
  date_or_null texts (some (close, date)) = text (texts.iso date)

  unfoldable pub feature_snapshot_of : Texts → Context D W → Snapshot W
  unfolding to_feature_snapshot
  feature_snapshot_of texts (daily_context c) = ("price", text_or_null c.price) ∷ c.features.columns
  feature_snapshot_of texts (orb_context c) =
      ("price", text_or_null (close_of c.latest_price))
      ∷ ("price_date", date_or_null texts c.latest_price)
      ∷ c.session_feature.columns
  feature_snapshot_of texts (candidate_context c) = to_feature_snapshot texts c.candidate
