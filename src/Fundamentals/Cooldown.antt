-- ===== src/Fundamentals/Cooldown.antt =====
-- app/fundamentals/queue_service.py: a run that starts while the queue cools down.
use ai_market_scanning_engin.Prelude.{
  ℕ, ◌-◌, ◌≤◌, ◌≡◌, refl, ap, ◌∙◌, String, Bool, true, Option, none, some, List, [], ◌∷◌, ltb, All,
  Float, arith, Bool-cases, inl, inr, if◌then◌else◌,
}
use ai_market_scanning_engin.Runtime.{Runtime}
use ai_market_scanning_engin.Settings.{Settings}
use ai_market_scanning_engin.Fundamentals.Log.{
  FetchStatus, FetchLog, rate_limited, is_rate_limited, is_served, later, latest,
  most_recent_rate_limit, count_consecutive_rate_limits,
}
use ai_market_scanning_engin.Fundamentals.Queue.{
  no_run, run_queue, is_paused, escalated_cooldown_seconds,
}

abbrev pub NotAfter : ℕ → List FetchLog → Type 0
NotAfter t log = All (λ (r : FetchLog). r.requested_at ≤ t) log

abbrev Bounded : ℕ → Option ℕ → Type 0
Bounded t none = Unit
Bounded t (some s) = s ≤ t

later-Bounded : (t s : ℕ) (o : Option ℕ) → s ≤ t → Bounded t o → later s o ≤ t
later-Bounded t s none le h = le
later-Bounded t s (some u) le h = omega arith

latest-Bounded :
    (test : FetchStatus → Bool) (t : ℕ) (log : List FetchLog)
    → NotAfter t log
    → Bounded t (latest test log)
unfolding latest
latest-Bounded test t [] h = tt
latest-Bounded test t (r ∷ rest) h = elim (Bool-cases (test r.status)) [
  | inl e ↦
      rw e (later-Bounded t r.requested_at (latest test rest) h.0 (latest-Bounded test t rest h.1))
  | inr e ↦ rw e (latest-Bounded test t rest h.1)
]

later_same : (t : ℕ) (o : Option ℕ) → Bounded t o → later t o ≡ t
later_same t none h = refl
later_same t (some s) h = omega arith

latest-limited :
    (row : FetchLog) (older : List FetchLog)
    → row.status ≡ rate_limited
    → (latest is_rate_limited (row ∷ older)
        ≡ some (later row.requested_at (latest is_rate_limited older)))
      × (latest is_served (row ∷ older) ≡ latest is_served older)
unfolding latest
latest-limited row older e = (rw e refl, rw e refl)

-- the comparison with the last served fetch
abbrev unless_served : ℕ → Option ℕ → Option ℕ
unless_served limited_at none = some limited_at
unless_served limited_at (some ok_at) = if ltb limited_at ok_at then none else some limited_at

unless_served-Bounded : (t : ℕ) (o : Option ℕ) → Bounded t o → unless_served t o ≡ some t
unless_served-Bounded t none h = refl
unless_served-Bounded t (some s) h = ground arith

most_recent_rate_limit_as :
    (log : List FetchLog) {t : ℕ} {o : Option ℕ}
    → latest is_rate_limited log ≡ some t
    → latest is_served log ≡ o
    → most_recent_rate_limit log ≡ unless_served t o
unfolding most_recent_rate_limit
most_recent_rate_limit_as log {o = none} e h = rw (e, h, most_recent_rate_limit) refl
most_recent_rate_limit_as log {o = some s} e h = rw (e, h, most_recent_rate_limit) refl

-- The newest row of the log was rate limited, and none is of a later time.
most_recent_rate_limit_newest :
    (row : FetchLog) (older : List FetchLog)
    → row.status ≡ rate_limited
    → NotAfter row.requested_at older
    → most_recent_rate_limit (row ∷ older) ≡ some row.requested_at
most_recent_rate_limit_newest row older e h =
    let t = row.requested_at in
    let (limited, served) = latest-limited row older e in
    most_recent_rate_limit_as (row ∷ older)
      (limited ∙ ap some (later_same t _ (latest-Bounded is_rate_limited t older h))) served
    ∙ unless_served-Bounded t _ (latest-Bounded is_served t older h)

module _ {W : Type 0} ⦃f : Float W⦄ (settings : Settings W) where
  is_paused_newest :
      (row : FetchLog) (older : List FetchLog) (now : ℕ)
      → row.status ≡ rate_limited
      → NotAfter row.requested_at older
      → is_paused settings (row ∷ older) now
        ≡ f.lt
            (f.lit (now - row.requested_at))
            (escalated_cooldown_seconds settings (count_consecutive_rate_limits (row ∷ older)))
  unfolding is_paused
  is_paused_newest row older now e h =
      rw (most_recent_rate_limit_newest row older e h, is_paused) refl

  -- After a rate limit, a run that starts before the escalated cooldown is over makes no request and
  -- leaves the log as it was. The rate limit is the newest row of the log, no older row has a later
  -- time, and the cooldown is that for the number of rate limits since the last served fetch.
  pub run_queue-cooldown :
      (answer : ℕ → String → FetchStatus) (symbols : ℕ → Option String) (clock : ℕ → ℕ)
      (rt : Runtime) (is_locked_out : Bool) (now : ℕ) (rows : List ℕ) (row : FetchLog)
      (older : List FetchLog)
      → row.status ≡ rate_limited
      → NotAfter row.requested_at older
      → f.lt
          (f.lit (now - row.requested_at))
          (escalated_cooldown_seconds settings (count_consecutive_rate_limits (row ∷ older)))
        ≡ true
      → run_queue settings answer symbols clock rt is_locked_out now rows (row ∷ older)
        ≡ record { log = row ∷ older; actions = []; result = no_run }
  unfolding run_queue
  run_queue-cooldown answer symbols clock rt is_locked_out now rows row older e h early =
      let paused = is_paused_newest row older now e h ∙ early in
      elim (Bool-cases is_locked_out) [
        | inl locked ↦ rw locked refl
        | inr free ↦ rw (free, paused) refl
      ]
