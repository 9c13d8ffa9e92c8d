-- ===== src/Fundamentals/Pacing.antt =====
-- app/fundamentals/queue_service.py: in which order a run makes its requests and its pauses.
use ai_market_scanning_engin.Prelude.{
  subst, ℕ, max, min, ◌-◌, ◌≡◌, String, Bool, true, false, Option, List, [], ◌∷◌, length, take,
  Float, Bool-cases, Option-cases, inl, inr, leb,
}
use ai_market_scanning_engin.Runtime.{Runtime}
use ai_market_scanning_engin.Settings.{Settings}
use ai_market_scanning_engin.Fundamentals.Log.{FetchStatus, FetchLog, is_rate_limited, count_today}
use ai_market_scanning_engin.Fundamentals.Queue.{
  Action, request, sleep, QueueRun, no_run, batches, process_one, pause, run_batch, run_batches,
  run_queue, is_paused,
}

module _ {W : Type 0} where
  -- no request stands first
  abbrev pub Rested : List (Action W) → Type 0
  Rested [] = Unit
  Rested (sleep seconds ∷ rest) = Unit
  Rested (request symbol status ∷ rest) = ⊥

  -- no request was rate limited
  abbrev pub Unlimited : List (Action W) → Type 0
  Unlimited [] = Unit
  Unlimited (sleep seconds ∷ rest) = Unlimited rest
  Unlimited (request symbol status ∷ rest) = (is_rate_limited status ≡ false) × Unlimited rest

  -- Before each request there was a pause, or nothing; and no rate limit.
  abbrev pub IsPaced : List (Action W) → Type 0
  IsPaced [] = Unit
  IsPaced (sleep seconds ∷ rest) = IsPaced rest
  IsPaced (request symbol status ∷ rest) = Rested rest × Unlimited rest × IsPaced rest

  abbrev Calm : QueueRun W → Type 0
  Calm q = IsPaced q.actions × Unlimited q.actions

  abbrev Needs : {A : Type 0} → List A → QueueRun W → Type 0
  Needs [] q = Calm q
  Needs (_ ∷ _) q = Rested q.actions × Calm q

  Needs-Calm :
      {A : Type 0} (rest : List A) (q : QueueRun W) → Rested q.actions → Calm q → Needs rest q
  Needs-Calm [] q rested calm = calm
  Needs-Calm (x ∷ rest) q rested calm = (rested, calm)

  abbrev Ends : QueueRun W → Bool → Type 0
  Ends q true = IsPaced q.actions
  Ends q false = Calm q

module _ {W : Type 0} ⦃f : Float W⦄ (settings : Settings W) where
  module _ (answer : ℕ → String → FetchStatus) (symbols : ℕ → Option String) (clock : ℕ → ℕ) where
    pause-Needs :
        {A : Type 0} (seconds : W) (rest : List A) (q : QueueRun W)
        → Calm q
        → Needs rest (pause settings answer symbols clock seconds rest q)
    pause-Needs seconds [] q calm = calm
    pause-Needs seconds (x ∷ rest) q calm = (tt, calm)

    run_batch-Ends :
        (rows : List ℕ) (q : QueueRun W)
        → Needs rows q
        → (let r = run_batch settings answer symbols clock rows q in Ends r.0 r.1)
    unfolding run_batch process_one
    run_batch-Ends [] q calm = calm
    run_batch-Ends (symbol_id ∷ rest) q (rested, calm) = elim (Option-cases (symbols symbol_id)) [
      | inl e ↦ rw (e, run_batch) (run_batch-Ends rest q (Needs-Calm rest q rested calm))
      | inr (symbol, e) ↦
          let status = answer (length q.log) symbol in
          elim (Bool-cases (is_rate_limited status)) [
            | inl hit ↦ rw (e, run_batch, hit) (rested, calm.1, calm.0)
            | inr on ↦
                rw (e, run_batch, on)
                  (run_batch-Ends rest _ (
                    pause-Needs settings.fundamental_request_delay_seconds rest _
                      ((rested, calm.1, calm.0), (on, calm.1))))
          ]
    ]

    run_batches-IsPaced :
        (bs : List (List ℕ)) (q : QueueRun W)
        → Needs bs q
        → IsPaced (run_batches settings answer symbols clock bs q).actions
    unfolding run_batches
    run_batches-IsPaced [] q calm = calm.0
    run_batches-IsPaced (b ∷ more) q (rested, calm) =
        let r = run_batch settings answer symbols clock b q in
        let h = run_batch-Ends b q (Needs-Calm b q rested calm) in
        elim (Bool-cases r.1) [
          | inl stop ↦ rw (stop, run_batches) (subst (λ e. Ends r.0 e) stop h)
          | inr on ↦
              rw (on, run_batches)
                (run_batches-IsPaced more _ (
                  pause-Needs settings.fundamental_batch_delay_seconds more r.0
                    (subst (λ e. Ends r.0 e) on h)))
        ]

    -- Of the requests of a run, none directly follows another, without a pause between them, and none
    -- follows one that was rate limited: a rate limit ends the run. This holds whatever the provider
    -- answers, across the bounds of batches, and where a row's symbol is not known.
    pub run_queue-IsPaced :
        (rt : Runtime) (is_locked_out : Bool) (now : ℕ) (rows : List ℕ) (log : List FetchLog)
        → IsPaced (run_queue settings answer symbols clock rt is_locked_out now rows log).actions
    unfolding run_queue
    run_queue-IsPaced rt is_locked_out now rows log =
        let started = λ (bs : List (List ℕ)).
          run_batches-IsPaced bs (record { log = log; actions = []; result = no_run })
            (Needs-Calm bs _ tt (tt, tt)) in
        let chosen =
          take
            (min settings.fundamental_max_requests_per_run
              (settings.fundamental_max_requests_per_day - count_today rt now log))
            rows in
        elim (Bool-cases is_locked_out) [
          | inl e ↦ rw e tt
          | inr e ↦ elim (Bool-cases (is_paused settings log now)) [
            | inl p ↦ rw (e, p) tt
            | inr p ↦
                elim (Bool-cases
                  (leb settings.fundamental_max_requests_per_day (count_today rt now log))) [
                    | inl x ↦ rw (e, p, x) tt
                    | inr x ↦
                        rw (e, p, x)
                          (started (
                            batches (length chosen) (max 1 settings.fundamental_batch_size) chosen))
                  ]
          ]
        ]
