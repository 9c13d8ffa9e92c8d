-- ===== src/Ticks/Validator.antt =====
-- app/data/validator.py: the checks on candles.
use ai_market_scanning_engin.Prelude.{
  ℕ, String, Bool, true, false, ◌||◌, Option, none, some, List, [], ◌∷◌, ◌==◌, if◌then◌else◌, ℤ,
  is_negative, Result, ok, raise,
}
use ai_market_scanning_engin.Ticks.Models.{Decimal, Candle}

pub data ValidationError : Type 0 where
  corrupted negative : (name : String) → ValidationError
  high_below_low high_below_body low_above_body : ValidationError

abbrev pub Checked : Type 0
Checked = Result ValidationError Unit

-- one check after the other: the first error stops
abbrev pub and_then : Checked → Checked → Checked
and_then (ok done) later = later
and_then (raise e) later = raise e

-- the check of the volume, an `int`, which is never corrupted
abbrev pub validate_volume : ℤ → Checked
validate_volume v = if is_negative v then raise (negative "volume") else ok tt

-- `timestamp in seen_timestamps`
abbrev pub is_seen : ℕ → List ℕ → Bool
is_seen t [] = false
is_seen t (s ∷ seen) = (s == t) || is_seen t seen

abbrev pub is_ok : Checked → Bool
is_ok (ok done) = true
is_ok (raise e) = false

module _ {D : Type 0} ⦃d : Decimal D⦄ where
  unfoldable pub validate_non_negative : String → D → Checked
  validate_non_negative name value =
      if d.is_corrupted value
      then raise (corrupted name)
      else if d.lt value d.zero_price
      then raise (negative name)
      else ok tt

  unfoldable pub validate_ohlc : Candle D → Checked
  unfolding validate_non_negative
  validate_ohlc c = and_then (validate_non_negative "open" c.open_) (
      and_then (validate_non_negative "high" c.high) (
        and_then (validate_non_negative "low" c.low) (
          and_then (validate_non_negative "close" c.close) (
            if d.lt c.high c.low
            then raise high_below_low
            else if d.lt c.high c.open_ || d.lt c.high c.close
            then raise high_below_body
            else if d.lt c.open_ c.low || d.lt c.close c.low
            then raise low_above_body
            else ok tt))))

  abbrev pub validate_vwap : Option D → Checked
  validate_vwap none = ok tt
  validate_vwap (some x) = validate_non_negative "vwap" x

  unfoldable pub validate_candle : Candle D → Checked
  unfolding validate_ohlc validate_non_negative
  validate_candle c =
      and_then (validate_ohlc c) (and_then (validate_volume c.volume) (validate_vwap c.vwap))

  -- the loop of `validate_candles`, the timestamps seen so far being given
  unfoldable pub clean_candles : List ℕ → List (Candle D) → List (Candle D)
  unfolding validate_candle
  clean_candles seen [] = []
  clean_candles seen (c ∷ rest) =
      let dropped = clean_candles seen rest in
      let kept = clean_candles (c.timestamp ∷ seen) rest in
      if is_seen c.timestamp seen
      then dropped
      else if is_ok (validate_candle c)
      then c ∷ kept
      else dropped

  unfoldable pub validate_candles : List (Candle D) → List (Candle D)
  unfolding clean_candles
  validate_candles candles = clean_candles [] candles
