-- ===== src/Fundamentals/Priority.antt =====
-- app/fundamentals/queue_service.py: what `_select_pending` gives, and in which order.
use ai_market_scanning_engin.Prelude.{
  ℕ, ◌≤◌, ◌≼◌, All-map, Bool, ◌≡◌, String, Option, List, All, Float, true,
}
use ai_market_scanning_engin.Prelude.Floats.{IsNumber}
use ai_market_scanning_engin.Prelude.Sorting.{InOrder, keep}
use mathlib.Core.List.{Perm}
use ai_market_scanning_engin.Settings.{Settings}
use ai_market_scanning_engin.Scanning.Tables.{ResultRow}
use ai_market_scanning_engin.Fundamentals.Tiers.{InTier, HasScore, priority_key-score}
use ai_market_scanning_engin.Fundamentals.Pending.{Taken}
use ai_market_scanning_engin.Fundamentals.Select.{priority_key}

module _ {W : Type 0} ⦃f : Float W⦄ where
  -- the key has a number
  abbrev HasNumber : ResultRow W → Type 0
  HasNumber r = IsNumber (priority_key r).1

  -- the score of the row is not a NaN
  abbrev pub IsRanked : ResultRow W → Type 0
  IsRanked r = (x : W) → HasScore r x → IsNumber x

  IsRanked-priority_key : (r : ResultRow W) → IsNumber (priority_key r).1 → IsRanked r
  IsRanked-priority_key r h x read = rw (← (priority_key-score r read)) h

  pub All-IsRanked :
      (rows : List (ResultRow W)) → All (λ r. IsNumber (priority_key r).1) rows → All IsRanked rows
  All-IsRanked rows = All-map IsRanked-priority_key rows

  -- `a` may stand before `b`: its tier is not behind, and in one tier its score is not less
  abbrev pub Precedes : ResultRow W → ResultRow W → Type 0
  Precedes a b =
      (m n : ℕ) (x y : W)
      → InTier a m
      → InTier b n
      → HasScore a x
      → HasScore b y
      → (m ≤ n) × (m ≡ n → y ≼ x)

module _ {W : Type 0} ⦃f : Float W⦄ (settings : Settings W) (fromisoformat : String → Option ℕ)
    (now : ℕ) where
  -- What the queue promises of the rows that it selects.
  pub record IsQueue (rows selected : List (ResultRow W)) : Type 0 where
    pub taken : List (ResultRow W)
    pub pending : Taken settings fromisoformat now rows taken
    pub perm : Perm selected taken
    -- every row has a tier and a score
    pub placed : (r : ResultRow W) → ((n : ℕ) × InTier r n) × ((x : W) × HasScore r x)
    pub ordered : InOrder Precedes selected
    -- rows of one tier and one score are in the order of the table
    pub stable :
        (test : ResultRow W → Bool) (n : ℕ) (x : W)
        → ((r : ResultRow W) → test r ≡ true → InTier r n × HasScore r x)
        → keep test selected ≡ keep test taken
