-- ===== src/Alerts/Store.antt =====
-- app/repositories/alert_repository.py, and the in-memory queue of app/alerts/queue.py.
-- A table lists its rows from the newest (the highest id) to the oldest.
use ai_market_scanning_engin.Prelude.{
  ℕ, ◌+◌, Bool, true, false, ◌&&◌, String, Option, none, some, List, [], ◌∷◌, ◌++◌, if◌then◌else◌,
  str_eq, ◌==◌, leb,
}
use ai_market_scanning_engin.Decision.Models.{Decision, Quality}
use ai_market_scanning_engin.Values.{Snapshot}

pub data Status : Type 0 where
  pending sent failed retrying expired : Status

abbrev pub is_expired : Status → Bool
is_expired expired = true
is_expired _ = false

-- `status in ["PENDING", "RETRYING"]`
abbrev pub is_open : Status → Bool
is_open pending = true
is_open retrying = true
is_open _ = false

-- `Alert.expires_at.is_not(None), Alert.expires_at <= now`, for a PENDING or RETRYING row
abbrev pub is_overdue : ℕ → Option ℕ → Bool
is_overdue now none = false
is_overdue now (some t) = leb t now

pub record Alert (W : Type 0) : Type 0 where
  pub id : ℕ
  pub symbol_id : ℕ
  pub scanner_name : String
  pub signal_type : String
  pub decision : Decision
  pub score : W
  pub quality : Quality
  pub entry_reference : Option W
  pub breakout_level : Option W
  pub support_level : Option W
  pub resistance_level : Option W
  pub feature_snapshot : Snapshot W
  pub passed_rules : List String
  pub status : Status
  pub fingerprint : String
  pub signal_date : ℕ
  pub created_at : ℕ
  pub expires_at : Option ℕ

-- The three bots: default, IPO and F&O.
pub data Channel : Type 0 where
  default_bot ipo_bot fno_bot : Channel

pub data Cause : Type 0 where
  duplicate cooldown : Cause

pub data EventType : Type 0 where
  created_event queued_event sent_event failed_event retrying_event expired_event : EventType
  suppressed_event : Cause → EventType

pub record AlertEvent : Type 0 where
  pub alert_id : ℕ
  pub event_type : EventType

-- A row of `alert_delivery_logs`: the provider is named by the channel it serves.
pub record DeliveryLog : Type 0 where
  pub alert_id : ℕ
  pub provider : Channel
  pub status : String
  pub attempt_number : ℕ

pub record AlertStore (W : Type 0) : Type 0 where
  pub alerts : List (Alert W)
  pub events : List AlertEvent
  pub next_id : ℕ
  -- the ids in the asyncio queue, the next one to be taken first
  pub queue : List ℕ
  pub deliveries : List DeliveryLog

module _ {W : Type 0} where
  -- the newest row that passes the test: `.where(…).order_by(Alert.id.desc()).limit(1)`
  unfoldable pub newest : (Alert W → Bool) → List (Alert W) → Option (Alert W)
  newest test [] = none
  newest test (a ∷ rest) = if test a then some a else newest test rest

  unfoldable pub get_by_fingerprint : String → AlertStore W → Option (Alert W)
  unfolding newest
  get_by_fingerprint fingerprint s = newest (λ a. str_eq a.fingerprint fingerprint) s.alerts

  -- `since` is an instant after the epoch, where the truncated difference is exact; before it every
  -- alert qualifies, as with a negative number.
  unfoldable pub get_most_recent_for_signal : ℕ → String → ℕ → AlertStore W → Option (Alert W)
  unfolding newest
  get_most_recent_for_signal symbol_id signal_type since s =
      newest
        (λ a.
          a.symbol_id == symbol_id && str_eq a.signal_type signal_type && leb since a.created_at)
        s.alerts

  unfoldable pub get_by_id : ℕ → AlertStore W → Option (Alert W)
  unfolding newest
  get_by_id alert_id s = newest (λ a. a.id == alert_id) s.alerts

  -- The database gives the row its id and its creation time.
  unfoldable pub create : (ℕ → Alert W) → AlertStore W → AlertStore W
  create row s = record s { alerts = row s.next_id ∷ s.alerts; next_id = s.next_id + 1 }

  unfoldable pub log : ℕ → EventType → AlertStore W → AlertStore W
  log alert_id event_type s = record s {
    events = record { alert_id = alert_id; event_type = event_type } ∷ s.events;
  }

  -- `AlertQueue.put`
  unfoldable pub put : ℕ → AlertStore W → AlertStore W
  put alert_id s = record s { queue = s.queue ++ (alert_id ∷ []) }

  unfoldable pub set_status : ℕ → Status → List (Alert W) → List (Alert W)
  set_status alert_id status [] = []
  set_status alert_id status (a ∷ rest) =
      (if a.id == alert_id then record a { status = status } else a)
      ∷ set_status alert_id status rest

  unfoldable pub update_status : ℕ → Status → AlertStore W → AlertStore W
  unfolding set_status
  update_status alert_id status s = record s { alerts = set_status alert_id status s.alerts }

  abbrev pub is_stale : ℕ → Alert W → Bool
  is_stale now a = is_open a.status && is_overdue now a.expires_at

  unfoldable pub expire_rows : ℕ → List (Alert W) → List (Alert W)
  expire_rows now [] = []
  expire_rows now (a ∷ rest) =
      (if is_stale now a then record a { status = expired } else a) ∷ expire_rows now rest

  unfoldable pub stale_events : ℕ → List (Alert W) → List AlertEvent
  stale_events now [] = []
  stale_events now (a ∷ rest) =
      let later = stale_events now rest in
      if is_stale now a
      then record { alert_id = a.id; event_type = expired_event } ∷ later
      else later

  -- `_expiry_job` of app/scheduler/alert_jobs.py: `expire_stale`, and an EXPIRED event for each row.
  unfoldable pub expire_stale : ℕ → AlertStore W → AlertStore W
  unfolding expire_rows stale_events
  expire_stale now s = record s {
    alerts = expire_rows now s.alerts;
    events = stale_events now s.alerts ++ s.events;
  }
