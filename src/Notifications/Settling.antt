-- ===== src/Notifications/Settling.antt =====
-- A delivery settles its alert: the proofs about `deliver_loop` in a world where no other task writes
-- to the tables during a wait, and the provider answers every attempt.
use ai_market_scanning_engin.Values.{get}
use ai_market_scanning_engin.Notifications.Router.{resolve}
use ai_market_scanning_engin.Prelude.{
  ℕ, zero, suc, ◌+◌, ◌≤◌, ◌<◌, ◌≡◌, refl, true, false, some, List, [], ◌∷◌, length, arith, ◌⊎◌,
  is_some, ◌==◌,
}
use ai_market_scanning_engin.Alerts.Store.{
  Alert, AlertStore, Status, sent, failed, retrying, Channel, get_by_id, newest, set_status,
}
use ai_market_scanning_engin.Notifications.Delivery.{
  World, DeliveryResult, answered, End, returned, deliver_loop, deliver_now, record_status,
  log_attempt, is_sent, category_of,
}

module _ {W : Type 0} where
  -- No other task writes to the tables during the waits of a delivery.
  abbrev pub IsQuiet : World W → Type 0
  IsQuiet world =
      (id k : ℕ) (s : AlertStore W)
      → (world.during_send id k s ≡ s) × (world.during_sleep id k s ≡ s)

  -- The provider gives a result back on every attempt.
  abbrev pub Answers : World W → Type 0
  Answers world =
      (c : Channel) (id k : ℕ) → (r : DeliveryResult) × (world.answer c id k ≡ answered r)

  set_status_twice :
      (id : ℕ) (a b : Status) (alerts : List (Alert W))
      → set_status id b (set_status id a alerts) ≡ set_status id b alerts
  unfolding set_status
  set_status_twice id a b [] = refl
  set_status_twice id a b (x ∷ rest) = ground (arith, set_status_twice id a b rest)

  is_some-set_status :
      (id : ℕ) (status : Status) (alerts : List (Alert W))
      → is_some (newest (λ a. a.id == id) (set_status id status alerts))
        ≡ is_some (newest (λ a. a.id == id) alerts)
  unfolding set_status newest
  is_some-set_status id status [] = refl
  is_some-set_status id status (x ∷ rest) = ground (arith, is_some-set_status id status rest)

  -- The call returned, the alert is SENT or FAILED and all other rows are as before, and from one to
  -- `most` attempts were logged.
  abbrev pub Settled : ℕ → ℕ → AlertStore W → AlertStore W × End → Type 0
  Settled id most s (t, e) =
      (e ≡ returned)
      × ((t.alerts ≡ set_status id sent s.alerts) ⊎ (t.alerts ≡ set_status id failed s.alerts))
      × (length s.deliveries < length t.deliveries)
      × (length t.deliveries ≤ length s.deliveries + most)

  module _ (world : World W) (quiet : IsQuiet world) (answers : Answers world) where
    deliver_loop-Settled :
        (max_retries id : ℕ) (provider : Channel) (left attempt : ℕ) (s : AlertStore W)
        → attempt + suc left ≡ max_retries
        → is_some (get_by_id id s) ≡ true
        → Settled id (suc left) s (deliver_loop world max_retries id provider (suc left) attempt s)
    unfolding deliver_loop
    deliver_loop-Settled max_retries id provider zero attempt s e h =
        ground (arith, quiet id (attempt + 1) s, answers provider id (attempt + 1))
    deliver_loop-Settled max_retries id provider (suc left) attempt s e h =
        let k = attempt + 1 in
        let (r, answer) = answers provider id k in
        let retried = record_status id retrying (log_attempt id provider r.status k s) in
        ground (
          arith,
          quiet id k s,
          quiet id k retried,
          answer,
          set_status_twice id retrying sent s.alerts,
          set_status_twice id retrying failed s.alerts,
          is_some-set_status id retrying s.alerts,
          deliver_loop-Settled max_retries id provider left k retried,
        )

    -- A call for a stored alert that is not yet SENT returns, leaves that alert SENT or FAILED and
    -- every other row as it was, and logs at least one attempt and at most `alert_max_retries`. This
    -- is for at least one allowed attempt, a provider that answers each, and no writes by other tasks
    -- during the waits.
    pub deliver_now-Settled :
        (max_retries id : ℕ) (s : AlertStore W) {alert : Alert W}
        → 0 < max_retries
        → get_by_id id s ≡ some alert
        → is_sent alert.status ≡ false
        → Settled id max_retries s (deliver_now world max_retries id s)
    unfolding deliver_now
    deliver_now-Settled zero id s pos e unsent = absurd (omega arith)
    deliver_now-Settled (suc n) id s {alert} pos e unsent =
        let provider = resolve (category_of (get "alert_category" alert.feature_snapshot)) in
        ground (arith, deliver_loop-Settled (suc n) id provider n 0 s (omega arith) (rw e))

  module _ (world : World W) (id : ℕ) (provider : Channel) where
    -- attempt k gives back a failure that may be tried again
    abbrev pub Retryable : ℕ → Type 0
    Retryable k =
        (r : DeliveryResult) × (world.answer provider id k ≡ answered r)
        × (r.success ≡ false)
        × (r.retryable ≡ true)

    abbrev pub Accepted : ℕ → Type 0
    Accepted k =
        (r : DeliveryResult) × (world.answer provider id k ≡ answered r) × (r.success ≡ true)

  module _ (world : World W) (quiet : IsQuiet world) (id : ℕ) (provider : Channel) where
    deliver_loop_first :
        (max_retries n left attempt : ℕ) (s : AlertStore W)
        → attempt + left ≡ max_retries
        → n < left
        → ((j : ℕ) → attempt < j → j ≤ attempt + n → Retryable world id provider j)
        → Accepted world id provider (attempt + suc n)
        → is_some (get_by_id id s) ≡ true
        → let (t, end) = deliver_loop world max_retries id provider left attempt s in
          (end ≡ returned)
          × (t.alerts ≡ set_status id sent s.alerts)
          × (length t.deliveries ≡ length s.deliveries + suc n)
    unfolding deliver_loop
    deliver_loop_first max_retries n zero attempt s e lt fails accepted h = absurd (omega arith)
    deliver_loop_first max_retries zero (suc left) attempt s e lt fails (r, answer, good) h =
        let k : attempt + 1 ≡ attempt + suc 0 = omega arith in
        ground (arith, quiet id (attempt + 1) s, k, answer, good)
    deliver_loop_first max_retries (suc n) (suc left) attempt s e lt fails accepted h =
        let k = attempt + 1 in
        let (r, answer, bad, again) = fails k (omega arith) (omega arith) in
        let retried = record_status id retrying (log_attempt id provider r.status k s) in
        let shift : attempt + suc (suc n) ≡ k + suc n = omega arith in
        ground (
          arith,
          quiet id k s,
          quiet id k retried,
          answer,
          bad,
          again,
          set_status_twice id retrying sent s.alerts,
          is_some-set_status id retrying s.alerts,
          deliver_loop_first max_retries n left k retried (omega arith) (omega arith)
              (λ j lo hi. fails j (omega arith) (omega arith)) (rw shift at accepted),
        )

  -- the bot that an alert is routed to
  abbrev pub bot_of : Alert W → Channel
  bot_of alert = resolve (category_of (get "alert_category" alert.feature_snapshot))

  -- If the bot that the alert is routed to refuses the first n attempts with errors that may be
  -- retried and accepts the next one, within the allowed retries, then a stored alert that is not yet
  -- SENT becomes SENT after exactly n + 1 logged attempts, every other row staying as it was. No
  -- other task writes to the tables during the waits.
  pub deliver_now_first :
      (world : World W)
      → IsQuiet world
      → (max_retries n id : ℕ) (s : AlertStore W) (alert : Alert W) → n < max_retries
      → get_by_id id s ≡ some alert
      → is_sent alert.status ≡ false
      → ((j : ℕ) → 0 < j → j ≤ n → Retryable world id (bot_of alert) j)
      → Accepted world id (bot_of alert) (suc n)
      → let (t, end) = deliver_now world max_retries id s in
        (end ≡ returned)
        × (t.alerts ≡ set_status id sent s.alerts)
        × (length t.deliveries ≡ length s.deliveries + suc n)
  unfolding deliver_now
  deliver_now_first world quiet max_retries n id s alert lt e unsent fails accepted =
      let one : suc n ≡ 0 + suc n = omega arith in
      ground (
        arith,
        deliver_loop_first world quiet id (bot_of alert) max_retries n max_retries 0 s (omega arith)
            lt (λ j lo hi. fails j lo (omega arith)) (rw one at accepted) (rw e),
      )
