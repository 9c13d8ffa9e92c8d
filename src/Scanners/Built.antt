-- ===== src/Scanners/Built.antt =====
-- What `build_context_bulk` of app/scanner and app/candidates gives for a symbol.
use ai_market_scanning_engin.Prelude.{
  ℕ, String, true, Option, some, List, [], ◌∷◌, ◌≡◌, refl, ◌==◌, Float, arith, Option-cases,
  Bool-cases, inl, inr,
}
use ai_market_scanning_engin.Settings.{Settings}
use ai_market_scanning_engin.Scanning.Models.{Symbol}
use ai_market_scanning_engin.Scanners.Contexts.{
  Context, daily_context, orb_context, candidate_context, Rows, bulk, build_daily, build_orb,
  symbol_of,
}
use ai_market_scanning_engin.Scanners.Candidate.{Column, Texts, Universe, ipo_universe}
use ai_market_scanning_engin.Scanners.Builder.{Scorers, build_context}
use ai_market_scanning_engin.Scanners.Universes.{
  Universes, add_ipo_values, build_ipo_context, build_pre_breakout_context,
}

module _ {D W : Type 0} where
  -- a context that the bulk read gives is built from a symbol with the id
  pub bulk_induction :
      (P : Context D W → Type 0) (build : Symbol → Option (Context D W)) (symbols : List Symbol)
      (id : ℕ) (c : Context D W)
      → ((s : Symbol) → (s.id == id) ≡ true → build s ≡ some c → P c)
      → bulk build symbols id ≡ some c
      → P c
  unfolding bulk
  bulk_induction P build [] id c each h = absurd (ground (arith, h))
  bulk_induction P build (s ∷ rest) id c each h = elim (Option-cases (bulk build rest id)) [
    | inr (k, e) ↦ bulk_induction P build rest id c each (ground (arith, e, h))
    | inl e ↦ elim (Bool-cases (s.id == id)) [
      | inl y ↦ each s y (ground (arith, e, h, y))
      | inr y ↦ absurd (ground (arith, e, h, y))
    ]
  ]

-- the class of a context
pub data Kind : Type 0 where
  daily orb candidate : Kind

module _ {D W : Type 0} where
  unfoldable pub kind_of : Context D W → Kind
  kind_of (daily_context c) = daily
  kind_of (orb_context c) = orb
  kind_of (candidate_context c) = candidate

  -- the symbol and the class of what is built for a symbol
  abbrev pub IsBuilt : Kind → (Symbol → Option (Context D W)) → Type 0
  IsBuilt kind build =
      (s : Symbol) (c : Context D W) → build s ≡ some c → (kind_of c ≡ kind) × (symbol_of c ≡ s)

  pub build_daily-IsBuilt : (rows : Rows D W) → IsBuilt daily (build_daily rows)
  unfolding build_daily kind_of
  build_daily-IsBuilt rows s (daily_context c) h = (refl, ground (arith, h))
  build_daily-IsBuilt rows s (orb_context c) h = absurd (ground (arith, h))
  build_daily-IsBuilt rows s (candidate_context c) h = absurd (ground (arith, h))

  pub build_orb-IsBuilt : (rows : Rows D W) → IsBuilt orb (build_orb rows)
  unfolding build_orb kind_of
  build_orb-IsBuilt rows s (daily_context c) h = absurd (ground (arith, h))
  build_orb-IsBuilt rows s (orb_context c) h = (refl, ground (arith, h))
  build_orb-IsBuilt rows s (candidate_context c) h = absurd (ground (arith, h))

  pub bulk-kind_of :
      (kind : Kind) (build : Symbol → Option (Context D W))
      → IsBuilt kind build
      → (symbols : List Symbol) (id : ℕ) (c : Context D W) → bulk build symbols id ≡ some c
      → kind_of c ≡ kind
  bulk-kind_of kind build built symbols id c =
      bulk_induction (λ k. kind_of k ≡ kind) build symbols id c (λ s y h. (built s c h).0)

  pub bulk-symbol_of :
      (kind : Kind) (build : Symbol → Option (Context D W))
      → IsBuilt kind build
      → (symbols : List Symbol) (id : ℕ) (c : Context D W) → bulk build symbols id ≡ some c
      → (symbol_of c).id ≡ id
  bulk-symbol_of kind build built symbols id c =
      bulk_induction (λ k. (symbol_of k).id ≡ id) build symbols id c
        (λ s y h. ground (arith, y, (built s c h).1))

module _ {D W : Type 0} ⦃f : Float W⦄ ⦃d : Column D W⦄ (settings : Settings W) (texts : Texts)
    (scorers : Scorers W) (universes : Universes D) (rows : Rows D W) where
  pub build_context-IsBuilt :
      (universe : Universe) (name : String)
      → IsBuilt candidate (build_context settings texts scorers rows universe name)
  unfolding build_context kind_of
  build_context-IsBuilt universe name s (daily_context c) h = absurd (ground (arith, h))
  build_context-IsBuilt universe name s (orb_context c) h = absurd (ground (arith, h))
  build_context-IsBuilt universe name s (candidate_context c) h = (refl, ground (arith, h))

  module _ (day : ℕ → ℕ) where
    of_base :
        (b c : Context D W) (s : Symbol)
        → (kind_of b ≡ candidate) × (symbol_of b ≡ s)
        → some (add_ipo_values settings texts day scorers universes rows b) ≡ some c
        → (kind_of c ≡ candidate) × (symbol_of c ≡ s)
    unfolding add_ipo_values kind_of
    of_base (candidate_context b) (candidate_context c) s h e = (refl, ground (arith, e, h.1))
    of_base (candidate_context b) (daily_context c) s h e = absurd (ground (arith, e))
    of_base (candidate_context b) (orb_context c) s h e = absurd (ground (arith, e))
    of_base (daily_context b) c s h e = absurd (ground (arith, h.0))
    of_base (orb_context b) c s h e = absurd (ground (arith, h.0))

    pub build_ipo_context-IsBuilt :
        IsBuilt candidate (build_ipo_context settings texts day scorers universes rows)
    unfolding build_ipo_context add_ipo_values kind_of
    build_ipo_context-IsBuilt s c h =
        elim (Option-cases
          (build_context settings texts scorers rows ipo_universe "ipo_intraday_v1" s)) [
            | inl e ↦ absurd (ground (arith, e, h))
            | inr (b, e) ↦
                of_base b c s (build_context-IsBuilt ipo_universe "ipo_intraday_v1" s b e)
                  (ground (arith, e, h))
          ]

    pub build_pre_breakout_context-IsBuilt :
        IsBuilt candidate (build_pre_breakout_context settings texts day scorers universes rows)
    unfolding build_pre_breakout_context
    build_pre_breakout_context-IsBuilt s c h = build_context-IsBuilt _ "pre_breakout_v1" s c h
