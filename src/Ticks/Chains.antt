-- ===== src/Ticks/Chains.antt =====
-- app/providers/tick_aggregator.py and app/data/validator.py: an instrument's candles under the checks.
use ai_market_scanning_engin.Prelude.{
  ◌≢◌, str_eq, lookup, ℕ, suc, ◌≤◌, ◌<◌, ◌≡◌, refl, String, false, none, some, List, [], ◌∷◌, arith,
  Bool-cases, inl, inr, All, ok, ◌==◌,
}
use ai_market_scanning_engin.Ticks.Models.{Decimal, Candle, IsTotal}
use ai_market_scanning_engin.Ticks.Aggregator.{
  Tick, roll, is_repeat, to_candle, opened, extended, minute_of, new_aggregator,
}
use ai_market_scanning_engin.Ticks.Validator.{
  validate_candle, validate_candles, clean_candles, is_seen,
}
use ai_market_scanning_engin.Ticks.Streams.{Slot, step, bars, bars_of, bars_of-bars, ticks_of}
use ai_market_scanning_engin.Ticks.Bars.{
  IsTrade, IsBar, validate_candle-IsBar, opened-IsBar, extended-IsBar,
}

next :
    (last minute now : ℕ)
    → minute ≡ minute_of last
    → last < now
    → minute ≢ minute_of now
    → suc minute ≤ minute_of now
next last minute now e lt other = omega arith

is_seen_before :
    (t from : ℕ) (seen : List ℕ) → All (λ s. s < from) seen → from ≤ t → is_seen t seen ≡ false
is_seen_before t from [] early le = refl
is_seen_before t from (s ∷ seen) early le =
    ground (arith, early.0, is_seen_before t from seen early.1 le)

before-suc :
    (from t : ℕ) (seen : List ℕ) → from ≤ t → All (λ s. s < from) seen → All (λ s. s < suc t) seen
before-suc from t [] le early = tt
before-suc from t (s ∷ seen) le early =
    (let lt : s < from = early.0 in omega arith, before-suc from t seen le early.1)

module _ {D : Type 0} ⦃d : Decimal D⦄ where
  -- Candles whose minutes increase, from a minute on, each of which passes the checks.
  abbrev pub Chain : ℕ → List (Candle D) → Type 0
  Chain from [] = Unit
  Chain from (c ∷ rest) =
      (from ≤ c.timestamp) × (validate_candle c ≡ ok tt) × Chain (suc c.timestamp) rest

  Chain-from : (low from : ℕ) (cs : List (Candle D)) → low ≤ from → Chain from cs → Chain low cs
  Chain-from low from [] le h = tt
  Chain-from low from (c ∷ rest) le (first, valid, later) = (omega arith, valid, later)

  -- The bucket of a slot is a bar, and its minute is that of the slot's last trade.
  abbrev pub IsSound : Slot D → Type 0
  IsSound (none, none) = Unit
  IsSound (some last, some b) = (b.minute ≡ minute_of last) × IsBar b
  IsSound _ = ⊥

  abbrev first_minute : Slot D → ℕ
  first_minute (last, none) = 0
  first_minute (last, some b) = b.minute

  bars-Chain :
      IsTotal D
      → (s : Slot D) (ticks : List (Tick D)) → IsSound s
      → All IsTrade ticks
      → Chain (first_minute s) (bars s ticks)
  unfolding bars step roll extended to_candle
  bars-Chain total (none, none) [] sound trades = tt
  bars-Chain total (some last, some b) [] sound trades =
      (omega arith, validate_candle-IsBar b sound.1, tt)
  bars-Chain total (none, none) (t ∷ rest) sound trades = Chain-from 0 _ _ (omega arith) (
      bars-Chain total (some t.ltt_ms, some (opened t)) rest (refl, opened-IsBar total t trades.0)
        trades.1)
  bars-Chain total (some last, some b) (t ∷ rest) sound trades =
      elim (Bool-cases (is_repeat (some last) t)) [
        | inl again ↦ rw again (bars-Chain total (some last, some b) rest sound trades.1)
        | inr later ↦ elim (Bool-cases (b.minute == minute_of t.ltt_ms)) [
          | inl same ↦
              rw (later, same)
                (bars-Chain total (some t.ltt_ms, some (extended b t)) rest
                  (ground arith, extended-IsBar total b t sound.1 trades.0) trades.1)
          | inr other ↦
              rw (later, other)
                (
                  omega arith,
                  validate_candle-IsBar b sound.1,
                  Chain-from (suc b.minute) (minute_of t.ltt_ms) _
                      (next last b.minute t.ltt_ms sound.0 (ground arith) (ground arith))
                      (bars-Chain total (some t.ltt_ms, some (opened t)) rest
                        (refl, opened-IsBar total t trades.0) trades.1),
                )
        ]
      ]
  bars-Chain total (none, some b) ticks sound trades = elim sound [ ]
  bars-Chain total (some last, none) ticks sound trades = elim sound [ ]

  -- The checks keep a chain of candles whole.
  clean_candles-Chain :
      (seen : List ℕ) (from : ℕ) (cs : List (Candle D))
      → All (λ s. s < from) seen
      → Chain from cs
      → clean_candles seen cs ≡ cs
  unfolding clean_candles
  clean_candles-Chain seen from [] early chain = refl
  clean_candles-Chain seen from (c ∷ rest) early (first, valid, later) =
      rw
        (
          is_seen_before c.timestamp from seen early first,
          valid,
          clean_candles-Chain (c.timestamp ∷ seen) (suc c.timestamp) rest
              (omega arith, before-suc from c.timestamp seen first early) later,
        )
        refl

  trades-ticks_of :
      (key : String) (ticks : List (Tick D)) → All IsTrade ticks → All IsTrade (ticks_of key ticks)
  trades-ticks_of key [] trades = tt
  trades-ticks_of key (t ∷ rest) trades = elim (Bool-cases (str_eq t.instrument_key key)) [
    | inl e ↦ rw e (trades.0, trades-ticks_of key rest trades.1)
    | inr e ↦ rw e (trades-ticks_of key rest trades.1)
  ]

  -- Whatever ticks of valid prices arrive, for every instrument the candles that a fresh aggregator
  -- completes, followed by the one it flushes at the end, all pass the validator of the database, and
  -- no two of them share a minute: `validate_candles` drops none of them.
  pub validate_candles-bars_of :
      IsTotal D
      → (key : String) (ticks : List (Tick D)) → All IsTrade ticks
      → validate_candles (bars_of key new_aggregator ticks) ≡ bars_of key new_aggregator ticks
  unfolding validate_candles lookup
  validate_candles-bars_of total key ticks trades = rw (bars_of-bars key new_aggregator ticks) (
      clean_candles-Chain [] 0 _ tt
        (bars-Chain total (none, none) (ticks_of key ticks) tt (trades-ticks_of key ticks trades)))
