-- ===== src/Alerts/History.antt =====
-- Everything that the alert tables can go through: decisions processed, stale alerts expired, and
-- delivery statuses recorded, in any order.
use ai_market_scanning_engin.Prelude.{ℕ, ◌*◌, ◌≤◌, ◌≡◌, [], Float, subst, sym}
use ai_market_scanning_engin.Runtime.{Runtime}
use ai_market_scanning_engin.Settings.{Settings}
use ai_market_scanning_engin.Decision.Models.{Quality, DecisionResult}
use ai_market_scanning_engin.Alerts.Store.{AlertStore, Status, update_status, expire_stale}
use ai_market_scanning_engin.Alerts.Manager.{process_alert}
use ai_market_scanning_engin.Alerts.Uniqueness.{
  IsUnique, IsLive, process_alert-IsUnique, expire_rows-IsUnique, set_status-IsUnique,
}
use ai_market_scanning_engin.Alerts.Spacing.{
  IsSpaced, IsNumbered, process_alert-IsSpaced, process_alert-IsNumbered, expire_rows-IsSpaced,
  expire_rows-IsNumbered, set_status-IsSpaced, set_status-IsNumbered,
}

abbrev pub empty_store : {W : Type 0} → AlertStore W
empty_store = record { alerts = []; events = []; next_id = 1; queue = []; deliveries = [] }

module _ (rt : Runtime) {W : Type 0} ⦃f : Float W⦄ (settings : Settings W) where
  -- One operation on the tables. The database's clock is not behind the moment of the decision, and a
  -- delivery status is recorded only for an alert that has not expired.
  pub data Step (s t : AlertStore W) : Type 0 where
    process_step :
        (d : DecisionResult W) (quality : Quality) (symbol_id moment db_now : ℕ)
        → moment ≤ db_now
        → t ≡ (process_alert rt settings d quality symbol_id moment db_now s).0
        → Step s t
    expire_step : (now : ℕ) → t ≡ expire_stale now s → Step s t
    delivery_step :
        (id : ℕ) (status : Status) → IsLive id s.alerts → t ≡ update_status id status s → Step s t

  pub data Reach (s : AlertStore W) : AlertStore W → Type 0 where
    here : Reach s s
    next : {t u : AlertStore W} → Reach s t → Step t u → Reach s u

  pub record IsSound (s : AlertStore W) : Type 0 where
    pub unique : IsUnique s.alerts
    pub spaced : IsSpaced (settings.alert_cooldown_minutes * 60) s.alerts
    pub numbered : IsNumbered s.next_id s.alerts

  expire_stale-IsSound : (now : ℕ) (s : AlertStore W) → IsSound s → IsSound (expire_stale now s)
  unfolding expire_stale
  expire_stale-IsSound now s h = record {
    unique = expire_rows-IsUnique now s.alerts h.unique;
    spaced = expire_rows-IsSpaced _ now s.alerts h.spaced;
    numbered = expire_rows-IsNumbered _ now s.alerts h.numbered;
  }

  update_status-IsSound :
      (id : ℕ) (status : Status) (s : AlertStore W)
      → IsLive id s.alerts
      → IsSound s
      → IsSound (update_status id status s)
  unfolding update_status
  update_status-IsSound id status s live h = record {
    unique = set_status-IsUnique id status s.alerts live h.unique;
    spaced = set_status-IsSpaced _ id status s.alerts h.spaced;
    numbered = set_status-IsNumbered _ id status s.alerts h.numbered;
  }

  Step-IsSound : {s t : AlertStore W} → Step s t → IsSound s → IsSound t
  Step-IsSound {s} (process_step d quality symbol_id moment db_now le e) h =
      subst IsSound (sym e) (record {
        unique = process_alert-IsUnique rt settings d quality symbol_id moment db_now s h.unique;
        spaced = process_alert-IsSpaced rt settings d quality symbol_id moment db_now s le h.spaced;
        numbered =
            process_alert-IsNumbered rt settings d quality symbol_id moment db_now s h.numbered;
      })
  Step-IsSound {s} (expire_step now e) h = subst IsSound (sym e) (expire_stale-IsSound now s h)
  Step-IsSound {s} (delivery_step id status live e) h =
      subst IsSound (sym e) (update_status-IsSound id status s live h)

  Reach-IsSound_from : {s t : AlertStore W} → IsSound s → Reach s t → IsSound t
  Reach-IsSound_from h here = h
  Reach-IsSound_from h (next r step) = Step-IsSound step (Reach-IsSound_from h r)

  -- Whatever decisions are processed, alerts expired and deliveries recorded, starting from empty
  -- tables: at most one alert of each fingerprint is not EXPIRED, and it is the newest; two alerts for
  -- one symbol and signal are created more than the cooldown apart; and ids fall from the newest row
  -- to the oldest. The database's clock is not behind the moment of a decision, and no delivery
  -- status is recorded for an EXPIRED alert.
  pub Reach-IsSound : {t : AlertStore W} → Reach empty_store t → IsSound t
  Reach-IsSound r = Reach-IsSound_from (record { unique = tt; spaced = tt; numbered = tt }) r
