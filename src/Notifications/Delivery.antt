-- ===== src/Notifications/Delivery.antt =====
-- `deliver_now` and `recover_pending` of app/notifications/manager.py. What the provider answers and
-- what other tasks do to the tables while this one waits are arguments.
use ai_market_scanning_engin.Prelude.{
  ℕ, zero, suc, ◌+◌, Bool, true, false, not, ◌||◌, String, Option, none, some, List, [], ◌∷◌,
  if◌then◌else◌, leb, take, ◌++◌, length,
}
use ai_market_scanning_engin.Values.{Value, text, get, null}
use ai_market_scanning_engin.Alerts.Store.{
  Alert, AlertStore, Status, sent, failed, retrying, Channel, sent_event, failed_event,
  retrying_event, get_by_id, update_status, log, is_open,
}
use ai_market_scanning_engin.Notifications.Router.{resolve}

-- app/notifications/base.py
pub record DeliveryResult : Type 0 where
  pub success : Bool
  pub status : String
  pub retryable : Bool

-- What `provider.send_message` does: it gives a result back, or raises.
pub data Answer : Type 0 where
  answered : DeliveryResult → Answer
  broken : Answer

-- How a call of `deliver_now` ends: it returns, or an exception leaves it.
pub data End : Type 0 where
  returned raised : End

-- The surroundings of a delivery: the provider's answer to each attempt for an alert on a channel, and
-- what the other tasks make of the tables while the message is on its way and while this task sleeps.
pub record World (W : Type 0) : Type 0 where
  pub answer : Channel → (alert_id attempt : ℕ) → Answer
  pub during_send : (alert_id attempt : ℕ) → AlertStore W → AlertStore W
  pub during_sleep : (alert_id attempt : ℕ) → AlertStore W → AlertStore W

unfoldable pub is_sent : Status → Bool
is_sent sent = true
is_sent _ = false

module _ {W : Type 0} where
  -- `alert_category if isinstance(alert_category, str) else None`
  unfoldable pub category_of : Value W → Option String
  category_of null = none
  category_of (text s) = some s
  category_of _ = none

  unfoldable pub log_attempt : ℕ → Channel → String → ℕ → AlertStore W → AlertStore W
  log_attempt alert_id provider status attempt s = record s {
    deliveries =
        record {
          alert_id = alert_id;
          provider = provider;
          status = status;
          attempt_number = attempt;
        }
        ∷ s.deliveries;
  }

  -- the outcome of an attempt is recorded: the status, and the event
  unfoldable pub record_status : ℕ → Status → AlertStore W → AlertStore W
  unfolding update_status log
  record_status alert_id sent s = log alert_id sent_event (update_status alert_id sent s)
  record_status alert_id failed s = log alert_id failed_event (update_status alert_id failed s)
  record_status alert_id other s = log alert_id retrying_event (update_status alert_id other s)

  module _ (world : World W) (max_retries : ℕ) (id : ℕ) (provider : Channel) where
    -- The `while` loop with `left = max_retries - attempt` rounds to go. The first `none` is the
    -- return where the alert is gone, the second the failed `assert` (its session is rolled back).
    unfoldable pub deliver_loop : ℕ → ℕ → AlertStore W → AlertStore W × End
    unfolding get_by_id log_attempt record_status
    deliver_loop zero attempt s = (s, returned)
    deliver_loop (suc left) attempt s =
        let k = attempt + 1 in
        elim (get_by_id id s) [
          | none ↦ (s, returned)
          | some alert ↦ elim (world.answer provider id k) [
            | broken ↦ (world.during_send id k s, raised)
            | answered r ↦
                let now = world.during_send id k s in
                let logged = log_attempt id provider r.status k now in
                elim (get_by_id id now) [
                  | none ↦ (now, raised)
                  | some current ↦ elim r.success [
                    | true ↦ (record_status id sent logged, returned)
                    | false ↦ elim (not r.retryable || leb max_retries k) [
                      | true ↦ (record_status id failed logged, returned)
                      | false ↦
                          deliver_loop left k
                            (world.during_sleep id k (record_status id retrying logged))
                    ]
                  ]
                ]
          ]
        ]

  unfoldable pub deliver_now : World W → ℕ → ℕ → AlertStore W → AlertStore W × End
  unfolding get_by_id deliver_loop is_sent category_of resolve get
  deliver_now world max_retries id s = elim (get_by_id id s) [
    | none ↦ (s, returned)
    | some alert ↦
        if is_sent alert.status
        then (s, returned)
        else deliver_loop world max_retries id
            (resolve (category_of (get "alert_category" alert.feature_snapshot))) max_retries 0 s
  ]

  -- `list_by_status(["PENDING", "RETRYING"])` (oldest first, at most 200), as ids. The order by creation
  -- time is the order of the ids, and the table lists the newest first.
  unfoldable pub open_ids : List (Alert W) → List ℕ
  open_ids [] = []
  open_ids (a ∷ rest) =
      let older = open_ids rest in if is_open a.status then older ++ (a.id ∷ []) else older

  -- Each alert in turn; an exception is logged, and the next one goes ahead.
  unfoldable pub deliver_each : World W → ℕ → List ℕ → AlertStore W → AlertStore W
  unfolding deliver_now
  deliver_each world max_retries [] s = s
  deliver_each world max_retries (id ∷ ids) s =
      deliver_each world max_retries ids (deliver_now world max_retries id s).0

  unfoldable pub recover_pending : World W → ℕ → AlertStore W → AlertStore W × ℕ
  unfolding open_ids deliver_each
  recover_pending world max_retries s =
      let pending_ids = take 200 (open_ids s.alerts) in
      (deliver_each world max_retries pending_ids s, length pending_ids)
