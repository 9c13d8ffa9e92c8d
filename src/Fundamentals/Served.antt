-- ===== src/Fundamentals/Served.antt =====
-- app/fundamentals/queue_service.py: which of the pending rows a run fetches.
use ai_market_scanning_engin.Prelude.{
  String, Bool, false, ◌+◌, Option, none, some, ℕ, ◌≡◌, List, [], ◌∷◌, ◌++◌, length,
}
use ai_market_scanning_engin.Runtime.{Runtime}
use ai_market_scanning_engin.Settings.{Settings}
use ai_market_scanning_engin.Fundamentals.Log.{QueueRunResult}

-- the symbols of the rows that have one, in their order
abbrev pub known : (ℕ → Option String) → List ℕ → List String
known symbols [] = []
known symbols (id ∷ rest) = elim (symbols id) [
  | none ↦ known symbols rest
  | some symbol ↦ symbol ∷ known symbols rest
]

-- The result has fetched the first of these symbols in their order, and all of them unless a rate limit
-- ended the run.
pub record Served (all : List String) (r : QueueRunResult) : Type 0 where
  pub left : List String
  pub in_order : all ≡ r.symbols ++ left
  pub counted : r.processed ≡ length r.symbols
  pub complete : r.is_limited ≡ false → left ≡ []

-- A part of a run that had these symbols before it; `stopped` says whether a rate limit ended it.
record Goes (all : List String) (before after : QueueRunResult) (stopped : Bool) : Type 0 where
  left : List String
  in_order : before.symbols ++ all ≡ after.symbols ++ left
  counted : after.processed + length before.symbols ≡ before.processed + length after.symbols
  ended : after.is_limited ≡ stopped
  complete : stopped ≡ false → left ≡ []
