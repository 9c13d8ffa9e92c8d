-- ===== src/Ticks/Volume.antt =====
-- app/providers/tick_aggregator.py: the quantities and instruments of a stream.
use ai_market_scanning_engin.Prelude.{
  ℕ, Option, none, some, List, [], ◌∷◌, if◌then◌else◌, ℤ, pos, ◌+ℤ◌,
}
use ai_market_scanning_engin.Ticks.Models.{Decimal, Candle}
use ai_market_scanning_engin.Ticks.Aggregator.{Tick, is_repeat}
use ai_market_scanning_engin.Ticks.Streams.{Slot}

module _ {D : Type 0} where
  abbrev pub total_volume : List (Candle D) → ℤ
  total_volume [] = pos 0
  total_volume (c ∷ rest) = c.volume +ℤ total_volume rest

  abbrev pub total_quantity : List (Tick D) → ℤ
  total_quantity [] = pos 0
  total_quantity (t ∷ rest) = t.ltq +ℤ total_quantity rest

  abbrev slot_volume : Slot D → ℤ
  slot_volume (last, none) = pos 0
  slot_volume (last, some b) = b.volume

module _ {D : Type 0} ⦃d : Decimal D⦄ where
  -- the trades that are later than all before them
  abbrev pub in_order : Option ℕ → List (Tick D) → List (Tick D)
  in_order last [] = []
  in_order last (t ∷ rest) =
      let skipped = in_order last rest in
      let taken = in_order (some t.ltt_ms) rest in if is_repeat last t then skipped else t ∷ taken
