-- ===== src/Examples/Notifications.antt =====
-- Deliveries in a quiet world.
use ai_market_scanning_engin.Prelude.{
  ℕ, ◌≡◌, refl, true, false, some, none, List, [], ◌∷◌, arith, length, leb, if◌then◌else◌,
}
use ai_market_scanning_engin.Prelude.Floats.{Whole}
use ai_market_scanning_engin.Examples.Inputs.{alert_of, reraised}
use ai_market_scanning_engin.Alerts.Store.{
  pending, sent, expired, get_by_id, newest, set_status, ipo_bot, fno_bot,
}
use ai_market_scanning_engin.Alerts.Uniqueness.{IsUnique}
use ai_market_scanning_engin.Notifications.Router.{
  DigestEntry, split_by_universe, routed_to, split_by_universe-routed_to,
}
use ai_market_scanning_engin.Notifications.Delivery.{
  World, DeliveryResult, answered, returned, deliver_now, recover_pending, open_ids, is_sent,
}
use ai_market_scanning_engin.Notifications.Settling.{
  IsQuiet, Answers, Settled, deliver_now-Settled, deliver_now_first,
}
use ai_market_scanning_engin.Notifications.Recovery.{NoneOpen, recover_pending-NoneOpen}
use ai_market_scanning_engin.Notifications.Expired.{deliver_now-not-IsUnique}

abbrev accepted : DeliveryResult
accepted = record { success = true; status = "SENT"; retryable = true }

abbrev refused : DeliveryResult
refused = record { success = false; status = "RETRYING"; retryable = true }

-- The provider refuses so many attempts, and accepts the next.
abbrev refusing : ℕ → World Whole
refusing n = record {
  answer = λ c id k. answered (if leb k n then refused else accepted);
  during_send = λ id k s. s;
  during_sleep = λ id k s. s;
}

abbrev refusing-IsQuiet : (n : ℕ) → IsQuiet (refusing n)
refusing-IsQuiet n id k s = (refl, refl)

abbrev refusing-Answers : (n : ℕ) → Answers (refusing n)
refusing-Answers n c id k = (_, refl)

third_attempt :
    let (t, end) = deliver_now (refusing 2) 3 2 reraised in
    (t.alerts ≡ alert_of 2 sent "setup" ∷ alert_of 1 expired "setup" ∷ [])
    × (length t.deliveries ≡ 3)
unfolding deliver_now
third_attempt = (refl, refl)

deliver_now-Settled_example : Settled 2 3 reraised (deliver_now (refusing 5) 3 2 reraised)
unfolding get_by_id is_sent
deliver_now-Settled_example =
    deliver_now-Settled (refusing 5) (refusing-IsQuiet 5) (refusing-Answers 5) 3 2 reraised
      (omega arith) refl refl

deliver_now_first_example :
    let (t, end) = deliver_now (refusing 1) 3 2 reraised in
    (end ≡ returned) × (t.alerts ≡ set_status 2 sent reraised.alerts) × (length t.deliveries ≡ 2)
unfolding get_by_id is_sent
deliver_now_first_example =
    deliver_now_first (refusing 1) (refusing-IsQuiet 1) 3 1 2 reraised (alert_of 2 pending "setup")
      (omega arith) refl refl (λ j lo hi. (refused, ground arith, refl, refl))
      (accepted, refl, refl)

recover_pending-NoneOpen_example :
    let (t, count) = recover_pending (refusing 1) 3 reraised in
    NoneOpen t.alerts × (count ≡ length (open_ids reraised.alerts))
unfolding open_ids
recover_pending-NoneOpen_example =
    recover_pending-NoneOpen (refusing 1) (refusing-IsQuiet 1) (refusing-Answers 1) 3 (omega arith)
      3 reraised (omega arith) (omega arith)

deliver_now-not-IsUnique_example : ¬ IsUnique (deliver_now (refusing 0) 3 1 reraised).0.alerts
unfolding newest
deliver_now-not-IsUnique_example =
    deliver_now-not-IsUnique (refusing 0) (refusing-IsQuiet 0) 3 reraised
      (alert_of 2 pending "setup") (alert_of 1 expired "setup") (alert_of 1 expired "setup" ∷ [])
      (omega arith) refl refl refl refl refl (accepted, refl, refl)

abbrev entries : List (DigestEntry Whole)
entries =
    record { symbol = "A"; alert_category = some "IPO_MOMENTUM"; score = some 81 }
    ∷ record { symbol = "B"; alert_category = some "FNO_BREAKOUT"; score = some 90 }
    ∷ record { symbol = "C"; alert_category = none; score = some 85 }
    ∷ []

split_by_universe-routed_to_example :
    split_by_universe entries ≡ (routed_to ipo_bot entries, routed_to fno_bot entries)
split_by_universe-routed_to_example = split_by_universe-routed_to entries
