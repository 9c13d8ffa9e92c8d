-- ===== src/Notifications/Expired.antt =====
-- app/notifications/manager.py: an expired alert that is still in the queue.
use ai_market_scanning_engin.Notifications.Settling.{IsQuiet, Accepted, bot_of, deliver_now_first}
use ai_market_scanning_engin.Notifications.Delivery.{is_sent, World, deliver_now}
use ai_market_scanning_engin.Prelude.{
  ◌≡◌, true, some, List, [], ◌∷◌, String, str_eq, ◌==◌, arith, ℕ, ◌<◌, false, ap,
}
use ai_market_scanning_engin.Alerts.Store.{
  Alert, sent, newest, set_status, get_by_id, AlertStore, expired,
}
use ai_market_scanning_engin.Alerts.Uniqueness.{has_active, IsUnique}

module _ {W : Type 0} where
  has_active-resent :
      (fingerprint : String) (b : Alert W) (alerts : List (Alert W))
      → newest (λ x. x.id == b.id) alerts ≡ some b
      → str_eq b.fingerprint fingerprint ≡ true
      → has_active fingerprint (set_status b.id sent alerts) ≡ true
  unfolding newest set_status
  has_active-resent fingerprint b [] found same = cc
  has_active-resent fingerprint b (x ∷ rest) found same =
      ground (arith, has_active-resent fingerprint b rest)

  -- A newer alert has the fingerprint of an EXPIRED one that comes up for delivery. `deliver_now` does
  -- not look at EXPIRED, so where the old alert's bot accepts the first attempt (and no other task
  -- writes meanwhile) the old alert becomes SENT: an alert that is not the newest of its fingerprint
  -- is active again.
  pub deliver_now-not-IsUnique :
      (world : World W)
      → IsQuiet world
      → (max_retries : ℕ) (s : AlertStore W) (a b : Alert W) (rest : List (Alert W))
      → 0 < max_retries
      → s.alerts ≡ a ∷ rest
      → (a.id == b.id) ≡ false
      → newest (λ x. x.id == b.id) rest ≡ some b
      → b.status ≡ expired
      → str_eq b.fingerprint a.fingerprint ≡ true
      → Accepted world b.id (bot_of b) 1
      → ¬ IsUnique (deliver_now world max_retries b.id s).0.alerts
  unfolding get_by_id newest set_status is_sent
  deliver_now-not-IsUnique world quiet max_retries s a b rest pos table other found old same
        accepted u =
      let (end, sent_b, count) =
        deliver_now_first world quiet max_retries 0 b.id s b pos
          (rw table (rw (other, newest) found)) (rw old) (λ j lo hi. absurd (omega arith))
          accepted in
      ground (
        arith,
        sent_b,
        ap (set_status b.id sent) table,
        has_active-resent a.fingerprint b rest found same,
        u,
      )
