-- ===== src/Alerts/Outcomes.antt =====
-- app/alerts/manager.py: what `_process_impl` leaves behind, on every branch.
use ai_market_scanning_engin.Prelude.{ℕ, ◌+◌, ◌≡◌, refl, Option, none, some, [], ◌∷◌, ◌++◌, Float}
use ai_market_scanning_engin.Runtime.{Runtime}
use ai_market_scanning_engin.Settings.{Settings}
use ai_market_scanning_engin.Decision.Models.{Quality, DecisionResult}
use ai_market_scanning_engin.Alerts.Store.{
  AlertStore, Alert, AlertEvent, EventType, suppressed_event, created_event, queued_event, Cause,
  duplicate, cooldown,
}
use ai_market_scanning_engin.Alerts.Manager.{
  SuppressionResult, suppressed, not_suppressed, deduplicated, process_alert, alert_row,
}

abbrev pub event : ℕ → EventType → AlertEvent
event id e = record { alert_id = id; event_type = e }

module _ {W : Type 0} where
  -- The two ends of a call: a new row under the next id, queued last, with its CREATED and QUEUED
  -- events; or no new row, the queue as it was, and at most one SUPPRESSED event.
  abbrev pub Outcome : (ℕ → Alert W) → AlertStore W → AlertStore W × Option ℕ → Type 0
  Outcome row s (t, some id) =
      (id ≡ s.next_id)
      × (t.alerts ≡ row id ∷ s.alerts)
      × (t.queue ≡ s.queue ++ (id ∷ []))
      × (t.events ≡ event id queued_event ∷ event id created_event ∷ s.events)
      × (t.next_id ≡ s.next_id + 1)
  Outcome row s (t, none) =
      (t.alerts ≡ s.alerts)
      × (t.queue ≡ s.queue)
      × (t.next_id ≡ s.next_id)
      × ((blocking : ℕ) × (cause : Cause) × (t.events
            ≡ event blocking (suppressed_event cause) ∷ s.events))

  deduplicated-Outcome :
      (dup cooled : SuppressionResult) (row : ℕ → Alert W) (s : AlertStore W)
      → Outcome row s (deduplicated dup cooled row s)
  unfolding deduplicated
  deduplicated-Outcome (suppressed id) cooled row s = (refl, refl, refl, (id, duplicate, refl))
  deduplicated-Outcome not_suppressed (suppressed id) row s =
      (refl, refl, refl, (id, cooldown, refl))
  deduplicated-Outcome not_suppressed not_suppressed row s = (refl, refl, refl, refl, refl)

module _ (rt : Runtime) {W : Type 0} ⦃f : Float W⦄ where
  -- An ALERT verdict of known quality ends in one of two ways. If an id is returned, it is the next
  -- id, exactly that row is added in front of the others, the id is queued last, and the CREATED and
  -- QUEUED events are logged. If none is returned, alerts, queue and ids are as before, and exactly
  -- one SUPPRESSED event is logged.
  pub process_alert-Outcome :
      (settings : Settings W) (d : DecisionResult W) (quality : Quality)
      (symbol_id moment db_now : ℕ) (s : AlertStore W)
      → Outcome
          (alert_row rt settings d quality symbol_id moment db_now)
          s
          (process_alert rt settings d quality symbol_id moment db_now s)
  unfolding process_alert
  process_alert-Outcome settings d quality symbol_id moment db_now s = deduplicated-Outcome _ _ _ s
