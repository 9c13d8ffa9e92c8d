-- ===== src/Fundamentals/Log.antt =====
-- app/fundamentals/queue_models.py and app/repositories/fundamental_fetch_log_repository.py. The log
-- lists the newest attempt first; the error texts are left out.
use ai_market_scanning_engin.Prelude.{
  ℕ, String, Bool, true, false, ◌&&◌, Option, none, some, List, [], ◌∷◌, ◌==◌, ltb, max, count_if,
  if◌then◌else◌,
}
use ai_market_scanning_engin.Runtime.{Runtime}

pub data FetchStatus : Type 0 where
  pending processing success rate_limited failed cached : FetchStatus

abbrev pub is_rate_limited : FetchStatus → Bool
is_rate_limited rate_limited = true
is_rate_limited _ = false

-- `status in (SUCCESS, CACHED)`
abbrev pub is_served : FetchStatus → Bool
is_served success = true
is_served cached = true
is_served _ = false

pub record FetchLog : Type 0 where
  pub symbol_id : ℕ
  pub status : FetchStatus
  pub requested_at : ℕ

pub record QueueRunResult : Type 0 where
  pub processed : ℕ
  pub succeeded : ℕ
  pub cached_count : ℕ
  pub failed_count : ℕ
  pub is_limited : Bool
  pub budget_exhausted : Bool
  pub symbols : List String

-- `count_today()`: the rows of the market's day at `now`
unfoldable pub count_today : Runtime → ℕ → List FetchLog → ℕ
count_today rt now log = count_if (λ r. rt.market_date r.requested_at == rt.market_date now) log

abbrev pub later : ℕ → Option ℕ → ℕ
later t none = t
later t (some s) = max t s

-- `SELECT max(requested_at) WHERE status ...`
unfoldable pub latest : (FetchStatus → Bool) → List FetchLog → Option ℕ
latest test [] = none
latest test (r ∷ rest) =
    let before = latest test rest in
    if test r.status then some (later r.requested_at before) else before

unfoldable pub most_recent_rate_limit : List FetchLog → Option ℕ
unfolding latest
most_recent_rate_limit log = elim (latest is_rate_limited log) [
  | none ↦ none
  | some limited_at ↦ elim (latest is_served log) [
    | none ↦ some limited_at
    | some ok_at ↦ if ltb limited_at ok_at then none else some limited_at
  ]
]

unfoldable pub count_consecutive_rate_limits : List FetchLog → ℕ
unfolding latest
count_consecutive_rate_limits log = elim (latest is_served log) [
  | none ↦ count_if (λ r. is_rate_limited r.status) log
  | some ok_at ↦ count_if (λ r. is_rate_limited r.status && ltb ok_at r.requested_at) log
]
