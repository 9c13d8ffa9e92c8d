-- ===== src/Notifications/Recovery.antt =====
-- app/notifications/manager.py: recovery after a restart.
use ai_market_scanning_engin.Notifications.Settling.{IsQuiet, Answers, deliver_now-Settled}
use ai_market_scanning_engin.Prelude.{
  ℕ, ◌≤◌, ◌≡◌, refl, Bool, true, false, ◌||◌, some, List, [], ◌∷◌, ◌++◌, arith, inl, inr,
  Bool-cases, ◌==◌, All, subst, sym, ◌<◌, Option-cases, length, take_all,
}
use ai_market_scanning_engin.Alerts.Store.{
  Alert, Status, is_open, newest, set_status, AlertStore, get_by_id, sent, failed,
}
use ai_market_scanning_engin.Alerts.Spacing.{IsNumbered, set_status-IsNumbered}
use ai_market_scanning_engin.Notifications.Delivery.{
  open_ids, World, is_sent, deliver_now, recover_pending, deliver_each,
}

abbrev pub has_id : List ℕ → ℕ → Bool
has_id [] x = false
has_id (y ∷ ys) x = y == x || has_id ys x

has_id-append : (xs ys : List ℕ) (x : ℕ) → has_id (xs ++ ys) x ≡ (has_id xs x || has_id ys x)
has_id-append [] ys x = refl
has_id-append (y ∷ xs) ys x = ground (arith, has_id-append xs ys x)

module _ {W : Type 0} where
  -- every PENDING or RETRYING row is one of these
  abbrev IsCovered : List ℕ → List (Alert W) → Type 0
  IsCovered ids = All λ a. is_open a.status ≡ true → has_id ids a.id ≡ true

  -- no row is PENDING or RETRYING
  abbrev pub NoneOpen : List (Alert W) → Type 0
  NoneOpen = All λ a. is_open a.status ≡ false

  IsCovered-weaken :
      (ids more : List ℕ) (alerts : List (Alert W))
      → IsCovered ids alerts
      → IsCovered (ids ++ more) alerts
  IsCovered-weaken ids more [] h = tt
  IsCovered-weaken ids more (a ∷ rest) h =
      ground (arith, has_id-append ids more a.id, IsCovered-weaken ids more rest h.1)

  open_ids-open :
      (a : Alert W) (rest : List (Alert W))
      → is_open a.status ≡ true
      → open_ids (a ∷ rest) ≡ open_ids rest ++ (a.id ∷ [])
  unfolding open_ids
  open_ids-open a rest e = rw e

  open_ids-shut :
      (a : Alert W) (rest : List (Alert W))
      → is_open a.status ≡ false
      → open_ids (a ∷ rest) ≡ open_ids rest
  unfolding open_ids
  open_ids-shut a rest e = rw e

  open_ids-IsCovered : (alerts : List (Alert W)) → IsCovered (open_ids alerts) alerts
  open_ids-IsCovered [] = tt
  open_ids-IsCovered (a ∷ rest) = elim (Bool-cases (is_open a.status)) [
    | inl e ↦
        subst (λ ids. IsCovered ids (a ∷ rest)) (sym (open_ids-open a rest e))
          (
            ground (arith, has_id-append (open_ids rest) (a.id ∷ []) a.id),
            IsCovered-weaken (open_ids rest) (a.id ∷ []) rest (open_ids-IsCovered rest),
          )
    | inr e ↦
        subst (λ ids. IsCovered ids (a ∷ rest)) (sym (open_ids-shut a rest e))
          (ground arith, open_ids-IsCovered rest)
  ]

  set_status-IsCovered :
      (id : ℕ) (ids : List ℕ) (status : Status) (alerts : List (Alert W))
      → is_open status ≡ false
      → IsCovered (id ∷ ids) alerts
      → IsCovered ids (set_status id status alerts)
  unfolding set_status
  set_status-IsCovered id ids status [] h c = tt
  set_status-IsCovered id ids status (a ∷ rest) h c =
      ground (arith, c.0, set_status-IsCovered id ids status rest h c.1)

  absent-IsCovered :
      (bound id : ℕ) (ids : List ℕ) (alerts : List (Alert W))
      → IsNumbered bound alerts
      → bound ≤ id
      → IsCovered (id ∷ ids) alerts
      → IsCovered ids alerts
  absent-IsCovered bound id ids [] n le c = tt
  absent-IsCovered bound id ids (a ∷ rest) n le c =
      ground (arith, c.0, n.0, absent-IsCovered a.id id ids rest n.1 (omega arith) c.1)

  -- An id that no open row has can be left out.
  unopened-IsCovered :
      (bound id : ℕ) (ids : List ℕ) (alerts : List (Alert W))
      → IsNumbered bound alerts
      → ((a : Alert W) → newest (λ x. x.id == id) alerts ≡ some a → is_open a.status ≡ false)
      → IsCovered (id ∷ ids) alerts
      → IsCovered ids alerts
  unfolding newest
  unopened-IsCovered bound id ids [] n done c = tt
  unopened-IsCovered bound id ids (a ∷ rest) n done c = elim (Bool-cases (a.id == id)) [
    | inl e ↦ (
      ground (arith, c.0, done a (rw (e, newest))),
      absent-IsCovered a.id id ids rest n.1 (ground arith) c.1,
    )
    | inr e ↦ (
      ground (arith, c.0),
      unopened-IsCovered a.id id ids rest n.1 (λ x found. done x (rw (e, newest) found)) c.1,
    )
  ]

  IsCovered-nil : (alerts : List (Alert W)) → IsCovered [] alerts → NoneOpen alerts
  IsCovered-nil [] c = tt
  IsCovered-nil (a ∷ rest) c = (ground (arith, c.0), IsCovered-nil rest c.1)

  -- Where there is nothing to deliver, the call changes nothing, and no open row has the id.
  deliver_now_idle :
      (world : World W) (max_retries id : ℕ) (s : AlertStore W)
      → ((a : Alert W) → get_by_id id s ≡ some a → is_sent a.status ≡ true)
      → ((deliver_now world max_retries id s).0 ≡ s)
        × ((a : Alert W) → newest (λ x. x.id == id) s.alerts ≡ some a → is_open a.status ≡ false)
  unfolding deliver_now
  deliver_now_idle world max_retries id s done = elim (Option-cases (get_by_id id s)) [
    | inl e ↦ (rw (e, deliver_now), λ a found. ground arith)
    | inr (x, e) ↦ (ground (arith, done x e), λ a found. ground (arith, done x e))
  ]

  module _ (world : World W) (quiet : IsQuiet world) (answers : Answers world) (max_retries : ℕ)
      (pos : 0 < max_retries) where
    idle :
        (bound id : ℕ) (ids : List ℕ) (s : AlertStore W)
        → IsNumbered bound s.alerts
        → IsCovered (id ∷ ids) s.alerts
        → ((a : Alert W) → get_by_id id s ≡ some a → is_sent a.status ≡ true)
        → let t = (deliver_now world max_retries id s).0 in
          IsNumbered bound t.alerts × IsCovered ids t.alerts
    idle bound id ids s n c done =
        let (same, shut) = deliver_now_idle world max_retries id s done in
        rw same (n, unopened-IsCovered bound id ids s.alerts n shut c)

    -- One delivery takes its id off the cover, and keeps the ids in order.
    deliver_now-IsCovered :
        (bound id : ℕ) (ids : List ℕ) (s : AlertStore W)
        → IsNumbered bound s.alerts
        → IsCovered (id ∷ ids) s.alerts
        → let t = (deliver_now world max_retries id s).0 in
          IsNumbered bound t.alerts × IsCovered ids t.alerts
    deliver_now-IsCovered bound id ids s n c = elim (Option-cases (get_by_id id s)) [
      | inl e ↦ idle bound id ids s n c (λ a found. cc)
      | inr (a, e) ↦ elim (Bool-cases (is_sent a.status)) [
        | inl done ↦ idle bound id ids s n c (λ x found. ground arith)
        | inr unsent ↦
            elim (deliver_now-Settled world quiet answers max_retries id s pos e unsent).1 [
              | inl p ↦ rw p (
                set_status-IsNumbered bound id sent s.alerts n,
                set_status-IsCovered id ids sent s.alerts refl c,
              )
              | inr p ↦ rw p (
                set_status-IsNumbered bound id failed s.alerts n,
                set_status-IsCovered id ids failed s.alerts refl c,
              )
            ]
      ]
    ]

    deliver_each-NoneOpen :
        (bound : ℕ) (ids : List ℕ) (s : AlertStore W)
        → IsNumbered bound s.alerts
        → IsCovered ids s.alerts
        → NoneOpen (deliver_each world max_retries ids s).alerts
    unfolding deliver_each
    deliver_each-NoneOpen bound [] s n c = IsCovered-nil s.alerts c
    deliver_each-NoneOpen bound (id ∷ ids) s n c =
        let (n', c') = deliver_now-IsCovered bound id ids s n c in
        deliver_each-NoneOpen bound ids (deliver_now world max_retries id s).0 n' c'

    -- Restart recovery leaves no alert PENDING or RETRYING, if at most 200 were (the limit of its
    -- query), ids fall from row to row as the database gives them, at least one attempt is allowed,
    -- the provider answers every attempt, and no other task writes during the waits. It returns the
    -- number of alerts that it took up.
    pub recover_pending-NoneOpen :
        (bound : ℕ) (s : AlertStore W)
        → IsNumbered bound s.alerts
        → length (open_ids s.alerts) ≤ 200
        → let (t, count) = recover_pending world max_retries s in
          NoneOpen t.alerts × (count ≡ length (open_ids s.alerts))
    unfolding recover_pending
    recover_pending-NoneOpen bound s n few =
        rw (take_all 200 (open_ids s.alerts) few)
          (deliver_each-NoneOpen bound (open_ids s.alerts) s n (open_ids-IsCovered s.alerts), refl)
