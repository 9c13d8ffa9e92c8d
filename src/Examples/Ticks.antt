-- ===== src/Examples/Ticks.antt =====
-- Ticks of two instruments, one of them repeated, over two minutes. Prices are whole paise.
use ai_market_scanning_engin.Prelude.{
  ◌+ℤ◌, ℕ, ◌≡◌, refl, String, none, List, [], ◌∷◌, false, ltb, pos, arith, lookup, insert,
}
use ai_market_scanning_engin.Ticks.Models.{Decimal, IsTotal, Candle}
use ai_market_scanning_engin.Ticks.Aggregator.{
  Tick, new_aggregator, ingest, accept, flush_open_buckets,
}
use ai_market_scanning_engin.Ticks.Validator.{validate_candles}
use ai_market_scanning_engin.Ticks.Streams.{bars_of}
use ai_market_scanning_engin.Ticks.Chains.{validate_candles-bars_of}

instance abbrev paise : Decimal ℕ
paise = record { lt = ltb; zero_price = 0; is_corrupted = λ p. false }

paise-IsTotal : IsTotal ℕ
paise-IsTotal = ground arith

abbrev tick : String → ℕ → ℕ → ℕ → Tick ℕ
tick key price ltt_ms ltq = record {
  instrument_key = key;
  price = price;
  ltt_ms = ltt_ms;
  ltq = pos ltq;
}

abbrev stream : List (Tick ℕ)
stream =
    tick "TCS" 390_000 60_000 5
    ∷ tick "INFY" 150_000 60_500 1
    ∷ tick "TCS" 391_000 61_000 2
    ∷ tick "TCS" 391_000 61_000 2
    ∷ tick "TCS" 389_500 119_999 4
    ∷ tick "TCS" 389_900 120_000 1
    ∷ []

abbrev bar : ℕ → ℕ → ℕ → ℕ → ℕ → ℕ → Candle ℕ
bar minute first highest lowest last volume = record {
  timestamp = minute;
  open_ = first;
  high = highest;
  low = lowest;
  close = last;
  volume = pos volume;
  vwap = none;
}

two_bars :
    bars_of "TCS" new_aggregator stream
    ≡ bar 1 390_000 391_000 389_500 389_500 11 ∷ bar 2 389_900 389_900 389_900 389_900 1 ∷ []
unfolding bars_of ingest accept lookup insert flush_open_buckets ◌+ℤ◌
two_bars = refl

validate_candles-bars_of_example :
    validate_candles (bars_of "TCS" new_aggregator stream) ≡ bars_of "TCS" new_aggregator stream
validate_candles-bars_of_example =
    validate_candles-bars_of paise-IsTotal "TCS" stream (ground arith)

-- a batch with a candle whose high is below its low, and a second candle of one minute
abbrev batch : List (Candle ℕ)
batch = bar 1 5 7 4 6 10 ∷ bar 2 5 3 4 6 10 ∷ bar 1 5 8 4 6 10 ∷ bar 2 5 8 4 6 10 ∷ []

kept : validate_candles batch ≡ bar 1 5 7 4 6 10 ∷ bar 2 5 8 4 6 10 ∷ []
unfolding validate_candles
kept = refl
