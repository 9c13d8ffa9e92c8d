-- ===== src/Ticks/Cleaning.antt =====
-- app/data/validator.py: `validate_candles` on any batch.
use ai_market_scanning_engin.Prelude.{◌⊎◌, ℕ, ◌≡◌, true, false, ◌||◌, List, [], ◌∷◌, ok}
use ai_market_scanning_engin.Ticks.Models.{Decimal, Candle}
use ai_market_scanning_engin.Ticks.Validator.{validate_candle, is_seen, is_ok}

module _ {D : Type 0} where
  abbrev pub timestamps : List (Candle D) → List ℕ
  timestamps [] = []
  timestamps (c ∷ rest) = c.timestamp ∷ timestamps rest

  abbrev pub IsDistinct : List (Candle D) → Type 0
  IsDistinct [] = Unit
  IsDistinct (c ∷ rest) = (is_seen c.timestamp (timestamps rest) ≡ false) × IsDistinct rest

module _ {D : Type 0} ⦃d : Decimal D⦄ where
  abbrev pub IsValid : Candle D → Type 0
  IsValid c = validate_candle c ≡ ok tt

  -- every valid candle's timestamp is kept, or was seen before
  abbrev pub Covers : List ℕ → List (Candle D) → List (Candle D) → Type 0
  Covers seen kept [] = Unit
  Covers seen kept (c ∷ rest) =
      ((is_ok (validate_candle c) ≡ false)
        ⊎ ((is_seen c.timestamp seen || is_seen c.timestamp (timestamps kept)) ≡ true))
      × Covers seen kept rest
