-- ===== src/Ticks/Bars.antt =====
-- app/providers/tick_aggregator.py: the bars that the aggregator builds.
use ai_market_scanning_engin.Prelude.{is_negative-add, ◌≡◌, false, is_negative, ok, arith}
use ai_market_scanning_engin.Ticks.Models.{Decimal, IsTotal}
use ai_market_scanning_engin.Ticks.Aggregator.{Tick, Bucket, to_candle, opened, extended}
use ai_market_scanning_engin.Ticks.Validator.{validate_candle, validate_ohlc, validate_non_negative}

module _ {D : Type 0} ⦃d : Decimal D⦄ where
  abbrev pub IsPrice : D → Type 0
  IsPrice p = (d.is_corrupted p ≡ false) × (d.lt p d.zero_price ≡ false)

  -- A tick of a price, and of a quantity that is not negative.
  abbrev pub IsTrade : Tick D → Type 0
  IsTrade t = IsPrice t.price × (is_negative t.ltq ≡ false)

  pub record IsBar (b : Bucket D) : Type 0 where
    pub open_price : IsPrice b.open_
    pub high_price : IsPrice b.high
    pub low_price : IsPrice b.low
    pub close_price : IsPrice b.close
    pub low_high : d.lt b.high b.low ≡ false
    pub open_high : d.lt b.high b.open_ ≡ false
    pub close_high : d.lt b.high b.close ≡ false
    pub low_open : d.lt b.open_ b.low ≡ false
    pub low_close : d.lt b.close b.low ≡ false
    pub volume : is_negative b.volume ≡ false

  pub validate_candle-IsBar : (b : Bucket D) → IsBar b → validate_candle (to_candle b) ≡ ok tt
  unfolding validate_candle validate_ohlc validate_non_negative to_candle
  validate_candle-IsBar b i = rw (
    i.open_price.0, i.open_price.1, i.high_price.0, i.high_price.1, i.low_price.0, i.low_price.1,
    i.close_price.0, i.close_price.1, i.low_high, i.open_high, i.close_high, i.low_open,
    i.low_close, i.volume,
  )

  pub opened-IsBar : IsTotal D → (t : Tick D) → IsTrade t → IsBar (opened t)
  opened-IsBar total t (price, quantity) =
      let same = total.irreflexive t.price in
      record {
        open_price = price;
        high_price = price;
        low_price = price;
        close_price = price;
        low_high = same;
        open_high = same;
        close_high = same;
        low_open = same;
        low_close = same;
        volume = quantity;
      }

  pub extended-IsBar :
      IsTotal D → (b : Bucket D) (t : Tick D) → IsBar b → IsTrade t → IsBar (extended b t)
  unfolding extended
  extended-IsBar total b t i (price, quantity) = record {
    open_price = i.open_price;
    high_price = ground (arith, price, i.high_price);
    low_price = ground (arith, price, i.low_price);
    close_price = price;
    low_high = ground (arith, total.irreflexive t.price, i.low_high);
    open_high =
        ground
          (arith, i.open_high, total.asymmetric b.high t.price, total.chain b.open_ b.high t.price);
    close_high = ground (arith, total.irreflexive t.price);
    low_open =
        ground
          (arith, i.low_open, total.asymmetric t.price b.low, total.chain t.price b.low b.open_);
    low_close = ground (arith, total.irreflexive t.price);
    volume = is_negative-add b.volume t.ltq i.volume quantity;
  }
