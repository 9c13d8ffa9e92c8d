-- ===== src/Alerts/Uniqueness.antt =====
-- app/alerts/deduplicator.py: the alerts of one fingerprint.
use ai_market_scanning_engin.Decision.Models.{DecisionResult, Quality}
use ai_market_scanning_engin.Settings.{Settings}
use ai_market_scanning_engin.Alerts.Manager.{
  process_alert, alert_row, check_duplicate, build_fingerprint,
}
use ai_market_scanning_engin.Runtime.{Runtime}
use ai_market_scanning_engin.Prelude.{
  ℕ, ◌≡◌, refl, Bool, true, false, String, Option, none, some, List, [], ◌∷◌, arith, str_eq, eq_iff,
  All, if◌then◌else◌, Float,
}
use ai_market_scanning_engin.Alerts.Store.{
  Alert, Status, is_expired, newest, set_status, expire_rows, get_by_fingerprint, AlertStore,
}

module _ {W : Type 0} where
  -- some alert with this fingerprint is not expired
  abbrev pub has_active : String → List (Alert W) → Bool
  has_active fingerprint [] = false
  has_active fingerprint (a ∷ rest) =
      if str_eq a.fingerprint fingerprint
      then (if is_expired a.status then has_active fingerprint rest else true)
      else has_active fingerprint rest

  -- Of the alerts with one fingerprint only the newest may be active.
  abbrev pub IsUnique : List (Alert W) → Type 0
  IsUnique [] = Unit
  IsUnique (a ∷ rest) = (has_active a.fingerprint rest ≡ false) × IsUnique rest

  abbrev pub is_duplicate : String → Option (Alert W) → Bool
  is_duplicate fingerprint none = false
  is_duplicate fingerprint (some a) = if is_expired a.status then false else true

  -- The newest alert decides, as the deduplicator assumes.
  has_active-newest :
      (fingerprint : String) (alerts : List (Alert W))
      → IsUnique alerts
      → is_duplicate fingerprint (newest (λ a. str_eq a.fingerprint fingerprint) alerts)
        ≡ has_active fingerprint alerts
  unfolding newest
  has_active-newest fingerprint [] u = refl
  has_active-newest fingerprint (a ∷ rest) u =
      ground (arith, eq_iff a.fingerprint fingerprint, has_active-newest fingerprint rest u.1)

  has_active-expire_rows :
      (now : ℕ) (fingerprint : String) (alerts : List (Alert W))
      → has_active fingerprint alerts ≡ false
      → has_active fingerprint (expire_rows now alerts) ≡ false
  unfolding expire_rows
  has_active-expire_rows now fingerprint [] h = refl
  has_active-expire_rows now fingerprint (a ∷ rest) h =
      ground (arith, has_active-expire_rows now fingerprint rest)

  pub expire_rows-IsUnique :
      (now : ℕ) (alerts : List (Alert W)) → IsUnique alerts → IsUnique (expire_rows now alerts)
  unfolding expire_rows
  expire_rows-IsUnique now [] u = tt
  expire_rows-IsUnique now (a ∷ rest) u =
      ground
        (arith, has_active-expire_rows now a.fingerprint rest, expire_rows-IsUnique now rest u.1)

  -- no row with this id is expired
  abbrev pub IsLive : ℕ → List (Alert W) → Type 0
  IsLive id = All λ a. a.id ≡ id → is_expired a.status ≡ false

  has_active-set_status :
      (id : ℕ) (status : Status) (fingerprint : String) (alerts : List (Alert W))
      → IsLive id alerts
      → has_active fingerprint alerts ≡ false
      → has_active fingerprint (set_status id status alerts) ≡ false
  unfolding set_status
  has_active-set_status id status fingerprint [] live h = refl
  has_active-set_status id status fingerprint (a ∷ rest) live h =
      ground (arith, live.0, has_active-set_status id status fingerprint rest live.1)

  pub set_status-IsUnique :
      (id : ℕ) (status : Status) (alerts : List (Alert W))
      → IsLive id alerts
      → IsUnique alerts
      → IsUnique (set_status id status alerts)
  unfolding set_status
  set_status-IsUnique id status [] live u = tt
  set_status-IsUnique id status (a ∷ rest) live u = ground (
    arith,
    has_active-set_status id status a.fingerprint rest live.1,
    set_status-IsUnique id status rest live.1 u.1,
  )

module _ (rt : Runtime) {W : Type 0} ⦃f : Float W⦄ where
  -- A new row comes only where no active alert has its fingerprint.
  pub process_alert-IsUnique :
      (settings : Settings W) (d : DecisionResult W) (quality : Quality)
      (symbol_id moment db_now : ℕ) (s : AlertStore W)
      → IsUnique s.alerts
      → IsUnique (process_alert rt settings d quality symbol_id moment db_now s).0.alerts
  unfolding process_alert alert_row check_duplicate get_by_fingerprint
  process_alert-IsUnique settings d quality symbol_id moment db_now s u =
      ground (arith, has_active-newest (build_fingerprint rt d) s.alerts u)
