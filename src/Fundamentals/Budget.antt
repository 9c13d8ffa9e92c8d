-- ===== src/Fundamentals/Budget.antt =====
-- app/fundamentals/queue_service.py: what a run spends.
use ai_market_scanning_engin.Prelude.{
  ℕ, zero, suc, ◌+◌, ◌-◌, ◌≤◌, ◌<◌, ◌≡◌, refl, max, min, String, Bool, true, false, Option, List,
  [], ◌∷◌, length, take, drop, length-take, length-drop, count_if, Float, arith, Bool-cases,
  Option-cases, inl, inr, leb, ◌==◌,
}
use ai_market_scanning_engin.Runtime.{Runtime}
use ai_market_scanning_engin.Settings.{Settings}
use ai_market_scanning_engin.Fundamentals.Log.{
  FetchStatus, pending, processing, success, rate_limited, failed, cached, FetchLog, QueueRunResult,
  is_rate_limited, count_today,
}
use ai_market_scanning_engin.Fundamentals.Queue.{
  QueueRun, no_run, batches, count_status, process_one, limited, pause, run_batch, run_batches,
  run_queue, is_paused,
}

module _ {ℓ} {A : Type ℓ} where
  abbrev pub total : List (List A) → ℕ
  total [] = 0
  total (b ∷ more) = length b + total more

  total-batches : (n size : ℕ) (rows : List A) → total (batches n size rows) ≤ length rows
  unfolding batches
  total-batches zero size rows = omega arith
  total-batches (suc n) size [] = omega arith
  total-batches (suc n) size (r ∷ rest) =
      omega (arith, total-batches n size (drop size (r ∷ rest)), length-drop size (r ∷ rest))

module _ {W : Type 0} (today : FetchLog → Bool) where
  -- From one state of a run to a later one, with at most n more requests: each request is one row of
  -- the log and one step of the counter, and of the new rows none counts twice for the day.
  pub record Spent (n : ℕ) (a b : QueueRun W) : Type 0 where
    pub few : length b.log ≤ length a.log + n
    pub grows : length a.log ≤ length b.log
    pub counted : b.result.processed + length a.log ≡ a.result.processed + length b.log
    pub of_today : count_if today b.log + length a.log ≤ count_if today a.log + length b.log

  Spent-then : (m n : ℕ) {a b c : QueueRun W} → Spent m a b → Spent n b c → Spent (m + n) a c
  Spent-then m n p q =
      ground (arith, p.few, p.grows, p.counted, p.of_today, q.few, q.grows, q.counted, q.of_today)

  Spent-cons : (n : ℕ) {a b c : QueueRun W} → Spent 1 a b → Spent n b c → Spent (suc n) a c
  Spent-cons n p q =
      ground (arith, p.few, p.grows, p.counted, p.of_today, q.few, q.grows, q.counted, q.of_today)

  Spent-more : (n : ℕ) {a b : QueueRun W} → Spent n a b → Spent (suc n) a b
  Spent-more n p = ground (arith, p.few, p.grows, p.counted, p.of_today)

  Spent-none : (n : ℕ) (a : QueueRun W) → Spent n a a
  Spent-none n a = record {
    few = omega arith;
    grows = omega arith;
    counted = refl;
    of_today = omega arith;
  }

count_status_processed :
    (s : FetchStatus) (r : QueueRunResult) → (count_status s r).processed ≡ r.processed
unfolding count_status
count_status_processed pending r = refl
count_status_processed processing r = refl
count_status_processed success r = refl
count_status_processed rate_limited r = refl
count_status_processed failed r = refl
count_status_processed cached r = refl

module _ {W : Type 0} ⦃f : Float W⦄ (settings : Settings W) (today : FetchLog → Bool) where
  module _ (answer : ℕ → String → FetchStatus) (symbols : ℕ → Option String) (clock : ℕ → ℕ) where
    process_one-Spent :
        (symbol_id : ℕ) (symbol : String) (status : FetchStatus) (q : QueueRun W)
        → Spent today 1 q (process_one settings answer symbols clock symbol_id symbol status q)
    unfolding process_one
    process_one-Spent symbol_id symbol status q = record {
      few = omega arith;
      grows = omega arith;
      counted = omega (arith, count_status_processed status q.result);
      of_today = ground arith;
    }

    pause-Spent :
        {A : Type 0} (n : ℕ) (seconds : W) (rest : List A) (a b : QueueRun W)
        → Spent today n a b
        → Spent today n a (pause settings answer symbols clock seconds rest b)
    pause-Spent n seconds [] a b p = p
    pause-Spent n seconds (x ∷ rest) a b p = record {
      few = p.few;
      grows = p.grows;
      counted = p.counted;
      of_today = p.of_today;
    }

    limited-Spent :
        (n : ℕ) (a b : QueueRun W)
        → Spent today n a b
        → Spent today n a (limited settings answer symbols clock b)
    limited-Spent n a b p = record {
      few = p.few;
      grows = p.grows;
      counted = p.counted;
      of_today = p.of_today;
    }

    run_batch-Spent :
        (rows : List ℕ) (q : QueueRun W)
        → Spent today (length rows) q (run_batch settings answer symbols clock rows q).0
    unfolding run_batch
    run_batch-Spent [] q = Spent-none today 0 q
    run_batch-Spent (symbol_id ∷ rest) q = elim (Option-cases (symbols symbol_id)) [
      | inl e ↦ rw (e, run_batch) (Spent-more today (length rest) (run_batch-Spent rest q))
      | inr (symbol, e) ↦
          let status = answer (length q.log) symbol in
          let one = process_one-Spent symbol_id symbol status q in
          elim (Bool-cases (is_rate_limited status)) [
            | inl hit ↦
                rw (e, run_batch, hit)
                  (limited-Spent (suc (length rest)) q _
                    (Spent-cons today (length rest) one (Spent-none today (length rest) _)))
            | inr on ↦
                rw (e, run_batch, on)
                  (Spent-cons today (length rest)
                    (pause-Spent 1 settings.fundamental_request_delay_seconds rest q _ one)
                    (run_batch-Spent rest _))
          ]
    ]

    run_batches-Spent :
        (bs : List (List ℕ)) (q : QueueRun W)
        → Spent today (total bs) q (run_batches settings answer symbols clock bs q)
    unfolding run_batches
    run_batches-Spent [] q = Spent-none today 0 q
    run_batches-Spent (b ∷ more) q =
        let first = run_batch-Spent b q in
        elim (Bool-cases (run_batch settings answer symbols clock b q).1) [
          | inl stop ↦
              rw (stop, run_batches)
                (Spent-then today (length b) (total more) first (Spent-none today (total more) _))
          | inr on ↦
              rw (on, run_batches)
                (Spent-then today (length b) (total more)
                  (pause-Spent (length b) settings.fundamental_batch_delay_seconds more q _ first)
                  (run_batches-Spent more _))
        ]

module _ {W : Type 0} ⦃f : Float W⦄ (settings : Settings W) (rt : Runtime) where
  -- What a run from a log leaves, within the budgets.
  abbrev pub IsWithin : ℕ → List FetchLog → QueueRun W → Type 0
  IsWithin now log run =
      (length run.log ≤ length log + settings.fundamental_max_requests_per_run)
      × (count_today rt now run.log
          ≤ max (count_today rt now log) settings.fundamental_max_requests_per_day)
      × (run.result.processed + length log ≡ length run.log)

  unspent :
      (now : ℕ) (log : List FetchLog) (result : QueueRunResult)
      → result.processed ≡ 0
      → IsWithin now log (record { log = log; actions = []; result = result })
  unspent now log result e = (omega arith, omega arith, omega (arith, e))

  Spent-IsWithin :
      (now n : ℕ) (log : List FetchLog) (run : QueueRun W)
      → n
        ≤ min settings.fundamental_max_requests_per_run
            (settings.fundamental_max_requests_per_day - count_today rt now log)
      → leb settings.fundamental_max_requests_per_day (count_today rt now log) ≡ false
      → Spent
          (λ r. rt.market_date r.requested_at == rt.market_date now)
          n
          (record { log = log; actions = []; result = no_run })
          run
      → IsWithin now log run
  unfolding count_today
  Spent-IsWithin now n log run le open_ p =
      let below : count_today rt now log < settings.fundamental_max_requests_per_day =
        ground arith in
      (
        omega (arith, le, p.few),
        omega (arith, le, below, p.few, p.grows, p.of_today),
        omega (arith, p.counted),
      )

  module _ (answer : ℕ → String → FetchStatus) (symbols : ℕ → Option String) (clock : ℕ → ℕ) where
    within :
        (now : ℕ) (rows : List ℕ) (log : List FetchLog)
        → leb settings.fundamental_max_requests_per_day (count_today rt now log) ≡ false
        → (let budget =
              min settings.fundamental_max_requests_per_run
                (settings.fundamental_max_requests_per_day - count_today rt now log) in
            IsWithin now log (
              run_batches settings answer symbols clock
                (batches
                  (length (take budget rows))
                  (max 1 settings.fundamental_batch_size)
                  (take budget rows))
                (record { log = log; actions = []; result = no_run })))
    within now rows log x =
        let budget =
          min settings.fundamental_max_requests_per_run
            (settings.fundamental_max_requests_per_day - count_today rt now log) in
        let chosen = take budget rows in
        let size = max 1 settings.fundamental_batch_size in
        Spent-IsWithin now (total (batches (length chosen) size chosen)) log _
          (omega (arith, total-batches (length chosen) size chosen, length-take budget rows)) x
          (run_batches-Spent settings (λ r. rt.market_date r.requested_at == rt.market_date now)
            answer symbols clock (batches (length chosen) size chosen) _)

    -- A run keeps to its budgets, whatever the provider answers and whenever its requests are logged: it
    -- adds at most `fundamental_max_requests_per_run` rows to the log; the rows of the day on which it
    -- started stay within `fundamental_max_requests_per_day`, unless they already exceeded it; and it
    -- counts as processed exactly the requests that it logged.
    pub run_queue-IsWithin :
        (is_locked_out : Bool) (now : ℕ) (rows : List ℕ) (log : List FetchLog)
        → IsWithin now log (run_queue settings answer symbols clock rt is_locked_out now rows log)
    unfolding run_queue
    run_queue-IsWithin is_locked_out now rows log = elim (Bool-cases is_locked_out) [
      | inl e ↦ rw e (unspent now log no_run refl)
      | inr e ↦ elim (Bool-cases (is_paused settings log now)) [
        | inl p ↦ rw (e, p) (unspent now log no_run refl)
        | inr p ↦
            elim (Bool-cases
              (leb settings.fundamental_max_requests_per_day (count_today rt now log))) [
                | inl x ↦
                    rw (e, p, x) (unspent now log (record no_run { budget_exhausted = true }) refl)
                | inr x ↦ rw (e, p, x) (within now rows log x)
              ]
      ]
    ]
