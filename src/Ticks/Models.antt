-- ===== src/Ticks/Models.antt =====
-- app/providers/base_provider.py: a candle; and Python's `Decimal`, as far as candles use it.
use ai_market_scanning_engin.Prelude.{ℕ, Bool, true, false, Option, ◌≡◌, ℤ}

-- Prices. `a > b` is `b < a`.
pub record Decimal (D : Type 0) : Type 0 where
  pub lt : D → D → Bool
  pub zero_price : D
  -- `math.isnan(float(value)) or math.isinf(float(value))`
  pub is_corrupted : D → Bool

-- The order of finite decimals: total, where `a < b` that fails says `b <= a`.
pub record IsTotal (D : Type 0) ⦃d : Decimal D⦄ : Type 0 where
  pub irreflexive : (a : D) → d.lt a a ≡ false
  pub asymmetric : (a b : D) → d.lt a b ≡ true → d.lt b a ≡ false
  pub chain : (a b c : D) → d.lt b a ≡ false → d.lt c b ≡ false → d.lt c a ≡ false

pub record Candle (D : Type 0) : Type 0 where
  pub timestamp : ℕ
  pub open_ : D
  pub high : D
  pub low : D
  pub close : D
  pub volume : ℤ
  pub vwap : Option D
