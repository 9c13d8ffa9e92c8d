-- ===== src/Ticks/Streams.antt =====
-- The aggregator on a stream of ticks, and what it does to one instrument of the stream.
use ai_market_scanning_engin.Prelude.{
  lookup-insert, lookup-insert_other, eq_iff, subst, ℕ, ◌≡◌, refl, String, false, Option, none,
  some, List, [], ◌∷◌, ◌++◌, if◌then◌else◌, Map, lookup, str_eq, arith, Bool-cases, inl, inr, true,
}
use ai_market_scanning_engin.Ticks.Models.{Decimal, Candle}
use ai_market_scanning_engin.Ticks.Aggregator.{
  Tick, Bucket, TickAggregator, ingest, accept, roll, is_repeat, to_candle, flush_open_buckets,
  snapshot,
}

abbrev pub maybe {ℓ} : {A : Type ℓ} → Option A → List A
maybe none = []
maybe (some a) = a ∷ []

-- What the aggregator keeps for one instrument.
abbrev pub Slot : Type 0 → Type 0
Slot D = Option ℕ × Option (Bucket D)

module _ {D : Type 0} where
  abbrev pub slot : String → TickAggregator D → Slot D
  slot key a = (lookup key a.last_ltt_ms, lookup key a.buckets)

  -- the ticks of one instrument
  abbrev pub ticks_of : String → List (Tick D) → List (Tick D)
  ticks_of key [] = []
  ticks_of key (t ∷ rest) =
      let others = ticks_of key rest in if str_eq t.instrument_key key then t ∷ others else others

  -- the candle that is still open in a slot
  abbrev pub open_candle : Slot D → List (Candle D)
  open_candle (last, none) = []
  open_candle (last, some b) = to_candle b ∷ []

  module _ ⦃d : Decimal D⦄ where
    -- One instrument's part of `ingest`.
    unfoldable pub step : Slot D → Tick D → Option (Candle D) × Slot D
    unfolding roll
    step s t =
        if is_repeat s.0 t
        then (none, s)
        else ((roll s.1 t).0, (some t.ltt_ms, some (roll s.1 t).1))

    -- The candles of one instrument that a list of ticks completes, and at its end the open one.
    unfoldable pub bars_of : String → TickAggregator D → List (Tick D) → List (Candle D)
    unfolding ingest flush_open_buckets
    bars_of key a [] = maybe (lookup key (flush_open_buckets a))
    bars_of key a (t ∷ rest) =
        let later = bars_of key (ingest a t).1 rest in
        if str_eq t.instrument_key key then maybe (ingest a t).0 ++ later else later

    unfoldable pub bars : Slot D → List (Tick D) → List (Candle D)
    unfolding step
    bars s [] = open_candle s
    bars s (t ∷ rest) = maybe (step s t).0 ++ bars (step s t).1 rest

    slot-ingest :
        (a : TickAggregator D) (t : Tick D)
        → ((ingest a t).0 ≡ (step (slot t.instrument_key a) t).0)
          × (slot t.instrument_key (ingest a t).1 ≡ (step (slot t.instrument_key a) t).1)
    unfolding ingest accept step
    slot-ingest a t = elim (Bool-cases (is_repeat (lookup t.instrument_key a.last_ltt_ms) t)) [
      | inl e ↦ (rw e, rw e)
      | inr e ↦ (
        rw e,
        rw (
          e,
          lookup-insert t.instrument_key t.ltt_ms a.last_ltt_ms,
          lookup-insert t.instrument_key (roll (lookup t.instrument_key a.buckets) t).1 a.buckets,
        ),
      )
    ]

    slot-ingest_own :
        (key : String) (a : TickAggregator D) (t : Tick D)
        → str_eq t.instrument_key key ≡ true
        → ((ingest a t).0 ≡ (step (slot key a) t).0)
          × (slot key (ingest a t).1 ≡ (step (slot key a) t).1)
    slot-ingest_own key a t e =
        subst
          (λ k.
            ((ingest a t).0 ≡ (step (slot k a) t).0)
            × (slot k (ingest a t).1 ≡ (step (slot k a) t).1))
          ((eq_iff t.instrument_key key).0 e) (slot-ingest a t)

    slot-ingest_other :
        (key : String) (a : TickAggregator D) (t : Tick D)
        → str_eq t.instrument_key key ≡ false
        → slot key (ingest a t).1 ≡ slot key a
    unfolding ingest accept
    slot-ingest_other key a t h =
        elim (Bool-cases (is_repeat (lookup t.instrument_key a.last_ltt_ms) t)) [
          | inl e ↦ rw e
          | inr e ↦ rw (
            e,
            lookup-insert_other t.instrument_key key t.ltt_ms a.last_ltt_ms h,
            lookup-insert_other t.instrument_key key (roll (lookup t.instrument_key a.buckets) t).1
                a.buckets h,
          )
        ]

    lookup-snapshot :
        (key : String) (m : Map (Bucket D)) (last : Option ℕ)
        → maybe (lookup key (snapshot m)) ≡ open_candle (last, lookup key m)
    unfolding snapshot lookup
    lookup-snapshot key [] last = refl
    lookup-snapshot key ((k, b) ∷ rest) last = ground (arith, lookup-snapshot key rest last)

    -- An instrument's candles depend on its own ticks and its own slot alone.
    pub bars_of-bars :
        (key : String) (a : TickAggregator D) (ticks : List (Tick D))
        → bars_of key a ticks ≡ bars (slot key a) (ticks_of key ticks)
    unfolding bars_of bars flush_open_buckets
    bars_of-bars key a [] = lookup-snapshot key a.buckets (lookup key a.last_ltt_ms)
    bars_of-bars key a (t ∷ rest) = elim (Bool-cases (str_eq t.instrument_key key)) [
      | inl e ↦
          let own = slot-ingest_own key a t e in
          rw (e, bars_of-bars key (ingest a t).1 rest, own.1, own.0) refl
      | inr e ↦ rw (e, bars_of-bars key (ingest a t).1 rest, slot-ingest_other key a t e)
    ]
