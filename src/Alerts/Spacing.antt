-- ===== src/Alerts/Spacing.antt =====
-- app/alerts/throttler.py: the times and ids of the rows of alerts.
use ai_market_scanning_engin.Prelude.{
  ℕ, ◌+◌, ◌-◌, ◌*◌, ◌≤◌, ◌<◌, ◌≡◌, Bool, true, ◌&&◌, none, List, [], ◌∷◌, Float, arith, str_eq,
  ◌==◌, leb, All, Bool-cases, inl, inr,
}
use ai_market_scanning_engin.Runtime.{Runtime}
use ai_market_scanning_engin.Settings.{Settings}
use ai_market_scanning_engin.Decision.Models.{Quality, DecisionResult}
use ai_market_scanning_engin.Alerts.Store.{
  AlertStore, Alert, Status, newest, get_most_recent_for_signal, set_status, expire_rows, is_stale,
}
use ai_market_scanning_engin.Alerts.Manager.{process_alert, alert_row, check_cooldown}

module _ {W : Type 0} where
  abbrev pub same_signal : Alert W → Alert W → Bool
  same_signal a b = b.symbol_id == a.symbol_id && str_eq b.signal_type a.signal_type

  -- every older alert for the same symbol and signal was created more than `gap` seconds before
  abbrev pub IsSpaced : ℕ → List (Alert W) → Type 0
  IsSpaced gap [] = Unit
  IsSpaced gap (a ∷ rest) =
      All (λ b. same_signal a b ≡ true → b.created_at + gap < a.created_at) rest × IsSpaced gap rest

  -- ids fall from row to row, below the next one
  abbrev pub IsNumbered : ℕ → List (Alert W) → Type 0
  IsNumbered bound [] = Unit
  IsNumbered bound (a ∷ rest) = (a.id < bound) × IsNumbered a.id rest

  module _ (a : Alert W) (gap : ℕ) where
    expire_rows-older :
        (now : ℕ) (rest : List (Alert W))
        → All (λ b. same_signal a b ≡ true → b.created_at + gap < a.created_at) rest
        → All
            (λ b. same_signal a b ≡ true → b.created_at + gap < a.created_at)
            (expire_rows now rest)
    unfolding expire_rows
    expire_rows-older now [] h = tt
    expire_rows-older now (b ∷ rest) h = ground (arith, h.0, expire_rows-older now rest h.1)

    set_status-older :
        (id : ℕ) (status : Status) (rest : List (Alert W))
        → All (λ b. same_signal a b ≡ true → b.created_at + gap < a.created_at) rest
        → All
            (λ b. same_signal a b ≡ true → b.created_at + gap < a.created_at)
            (set_status id status rest)
    unfolding set_status
    set_status-older id status [] h = tt
    set_status-older id status (b ∷ rest) h =
        ground (arith, h.0, set_status-older id status rest h.1)

  pub expire_rows-IsSpaced :
      (gap now : ℕ) (alerts : List (Alert W))
      → IsSpaced gap alerts
      → IsSpaced gap (expire_rows now alerts)
  unfolding expire_rows
  expire_rows-IsSpaced gap now [] h = tt
  expire_rows-IsSpaced gap now (a ∷ rest) h =
      let older = expire_rows-older a gap now rest h.0 in
      let kept = expire_rows-IsSpaced gap now rest h.1 in
      elim (Bool-cases (is_stale now a)) [ inl e ↦ rw e (older, kept) | inr e ↦ rw e (older, kept) ]

  pub set_status-IsSpaced :
      (gap id : ℕ) (status : Status) (alerts : List (Alert W))
      → IsSpaced gap alerts
      → IsSpaced gap (set_status id status alerts)
  unfolding set_status
  set_status-IsSpaced gap id status [] h = tt
  set_status-IsSpaced gap id status (a ∷ rest) h =
      let older = set_status-older a gap id status rest h.0 in
      let kept = set_status-IsSpaced gap id status rest h.1 in
      elim (Bool-cases (a.id == id)) [ inl e ↦ rw e (older, kept) | inr e ↦ rw e (older, kept) ]

  pub expire_rows-IsNumbered :
      (bound now : ℕ) (alerts : List (Alert W))
      → IsNumbered bound alerts
      → IsNumbered bound (expire_rows now alerts)
  unfolding expire_rows
  expire_rows-IsNumbered bound now [] h = tt
  expire_rows-IsNumbered bound now (a ∷ rest) h =
      ground (arith, expire_rows-IsNumbered a.id now rest h.1)

  pub set_status-IsNumbered :
      (bound id : ℕ) (status : Status) (alerts : List (Alert W))
      → IsNumbered bound alerts
      → IsNumbered bound (set_status id status alerts)
  unfolding set_status
  set_status-IsNumbered bound id status [] h = tt
  set_status-IsNumbered bound id status (a ∷ rest) h =
      ground (arith, set_status-IsNumbered a.id id status rest h.1)

  -- Where the throttler finds no alert, every alert for the signal is older than the cooldown.
  older_of_newest :
      (a : Alert W) (gap moment : ℕ) (alerts : List (Alert W))
      → newest
          (λ b.
            b.symbol_id == a.symbol_id
            && str_eq b.signal_type a.signal_type
            && leb (moment - gap) b.created_at)
          alerts
        ≡ none
      → moment ≤ a.created_at
      → All (λ b. same_signal a b ≡ true → b.created_at + gap < a.created_at) alerts
  unfolding newest
  older_of_newest a gap moment [] h le = tt
  older_of_newest a gap moment (b ∷ rest) h le = ground (arith, older_of_newest a gap moment rest)

module _ (rt : Runtime) {W : Type 0} ⦃f : Float W⦄ (settings : Settings W) where
  pub process_alert-IsSpaced :
      (d : DecisionResult W) (quality : Quality) (symbol_id moment db_now : ℕ) (s : AlertStore W)
      → moment ≤ db_now
      → IsSpaced (settings.alert_cooldown_minutes * 60) s.alerts
      → IsSpaced
          (settings.alert_cooldown_minutes * 60)
          (process_alert rt settings d quality symbol_id moment db_now s).0.alerts
  unfolding process_alert alert_row check_cooldown get_most_recent_for_signal
  process_alert-IsSpaced d quality symbol_id moment db_now s le h = ground (
    arith,
    older_of_newest (alert_row rt settings d quality symbol_id moment db_now s.next_id)
        (settings.alert_cooldown_minutes * 60) moment s.alerts,
  )

  pub process_alert-IsNumbered :
      (d : DecisionResult W) (quality : Quality) (symbol_id moment db_now : ℕ) (s : AlertStore W)
      → IsNumbered s.next_id s.alerts
      → let t = (process_alert rt settings d quality symbol_id moment db_now s).0 in
        IsNumbered t.next_id t.alerts
  unfolding process_alert alert_row
  process_alert-IsNumbered d quality symbol_id moment db_now s h = ground arith
