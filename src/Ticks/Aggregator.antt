-- ===== src/Ticks/Aggregator.antt =====
-- app/providers/tick_aggregator.py. A minute is its number since the epoch; `price` is what
-- `Decimal(str(ltp))` gives, and dropping the seconds of `ltt_ms` is a division.
use ai_market_scanning_engin.Prelude.{
  ℕ, suc, ◌/◌, String, Bool, false, Option, none, some, [], ◌∷◌, ◌==◌, leb, if◌then◌else◌, ℤ, ◌+ℤ◌,
  Map, lookup, insert,
}
use ai_market_scanning_engin.Ticks.Models.{Decimal, Candle}

pub record Bucket (D : Type 0) : Type 0 where
  pub minute : ℕ
  pub open_ : D
  pub high : D
  pub low : D
  pub close : D
  pub volume : ℤ

pub record TickAggregator (D : Type 0) : Type 0 where
  pub buckets : Map (Bucket D)
  pub last_ltt_ms : Map ℕ
  pub duplicates_dropped : ℕ
  pub ticks_processed : ℕ

-- The arguments of one call of `ingest`.
pub record Tick (D : Type 0) : Type 0 where
  pub instrument_key : String
  pub price : D
  pub ltt_ms : ℕ
  pub ltq : ℤ

abbrev pub minute_of : ℕ → ℕ
minute_of ltt_ms = ltt_ms / 60_000

module _ {D : Type 0} where
  abbrev pub new_aggregator : TickAggregator D
  new_aggregator = record {
    buckets = [];
    last_ltt_ms = [];
    duplicates_dropped = 0;
    ticks_processed = 0;
  }

  unfoldable pub to_candle : Bucket D → Candle D
  to_candle b = record {
    timestamp = b.minute;
    open_ = b.open_;
    high = b.high;
    low = b.low;
    close = b.close;
    volume = b.volume;
    vwap = none;
  }

  -- the bucket that a tick opens
  abbrev pub opened : Tick D → Bucket D
  opened t = record {
    minute = minute_of t.ltt_ms;
    open_ = t.price;
    high = t.price;
    low = t.price;
    close = t.price;
    volume = t.ltq;
  }

  module _ ⦃d : Decimal D⦄ where
    -- `max(a, b)` and `min(a, b)`: of equals, the first
    abbrev pub max_price : D → D → D
    max_price a b = if d.lt a b then b else a

    abbrev pub min_price : D → D → D
    min_price a b = if d.lt b a then b else a

    -- a tick of the bucket's own minute
    unfoldable pub extended : Bucket D → Tick D → Bucket D
    extended b t = record {
      minute = b.minute;
      open_ = b.open_;
      high = max_price b.high t.price;
      low = min_price b.low t.price;
      close = t.price;
      volume = b.volume +ℤ t.ltq;
    }

    -- The bucket after an accepted tick, and the candle that it completes.
    unfoldable pub roll : Option (Bucket D) → Tick D → Option (Candle D) × Bucket D
    unfolding to_candle extended
    roll none t = (none, opened t)
    roll (some b) t =
        if b.minute == minute_of t.ltt_ms
        then (none, extended b t)
        else (some (to_candle b), opened t)

    unfoldable pub accept : TickAggregator D → Tick D → Option (Candle D) × TickAggregator D
    unfolding roll
    accept a t =
        let rolled = roll (lookup t.instrument_key a.buckets) t in
        (
          rolled.0,
          record {
            buckets = insert t.instrument_key rolled.1 a.buckets;
            last_ltt_ms = insert t.instrument_key t.ltt_ms a.last_ltt_ms;
            duplicates_dropped = a.duplicates_dropped;
            ticks_processed = suc a.ticks_processed;
          },
        )

    -- `last_ltt is not None and ltt_ms <= last_ltt`
    abbrev pub is_repeat : Option ℕ → Tick D → Bool
    is_repeat none t = false
    is_repeat (some last) t = leb t.ltt_ms last

    unfoldable pub ingest : TickAggregator D → Tick D → Option (Candle D) × TickAggregator D
    unfolding accept
    ingest a t =
        if is_repeat (lookup t.instrument_key a.last_ltt_ms) t
        then (none, record a { duplicates_dropped = suc a.duplicates_dropped })
        else accept a t

  -- `{key: _to_candle(bucket) for key, bucket in self._buckets.items()}`
  unfoldable pub snapshot : Map (Bucket D) → Map (Candle D)
  unfolding to_candle
  snapshot [] = []
  snapshot ((key, b) ∷ rest) = (key, to_candle b) ∷ snapshot rest

  unfoldable pub flush_open_buckets : TickAggregator D → Map (Candle D)
  unfolding snapshot
  flush_open_buckets a = snapshot a.buckets
