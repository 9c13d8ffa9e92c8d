-- ===== src/Fundamentals/Queue.antt =====
-- app/fundamentals/queue_service.py: `run_queue`. The pending rows are an argument, in their order (Select
-- has it), and what a fetch writes to its row is in Apply: a run reads its rows once. The snapshot table
-- is left out.
use ai_market_scanning_engin.Prelude.{
  drop, ℕ, zero, suc, ◌-◌, max, min, String, Bool, true, false, Option, none, some, List, [], ◌∷◌,
  ◌++◌, length, take, if◌then◌else◌, leb, Float,
}
use ai_market_scanning_engin.Runtime.{Runtime}
use ai_market_scanning_engin.Settings.{Settings}
use ai_market_scanning_engin.Fundamentals.Log.{
  FetchStatus, FetchLog, QueueRunResult, success, failed, cached, is_rate_limited, count_today,
  most_recent_rate_limit, count_consecutive_rate_limits,
}

-- What a run does to the world outside, the newest first: a request, or a pause.
pub data Action (W : Type 0) : Type 0 where
  request : String → FetchStatus → Action W
  sleep : W → Action W

pub record QueueRun (W : Type 0) : Type 0 where
  pub log : List FetchLog
  pub actions : List (Action W)
  pub result : QueueRunResult

abbrev pub no_run : QueueRunResult
no_run = record {
  processed = 0;
  succeeded = 0;
  cached_count = 0;
  failed_count = 0;
  is_limited = false;
  budget_exhausted = false;
  symbols = [];
}

-- `pending[start : start + size]` for each start, at most so many times
unfoldable pub batches {ℓ} : {A : Type ℓ} → ℕ → ℕ → List A → List (List A)
batches zero size rows = []
batches (suc n) size [] = []
batches (suc n) size (r ∷ rest) = take size (r ∷ rest) ∷ batches n size (drop size (r ∷ rest))

-- the counters of `_process_one`
unfoldable pub count_status : FetchStatus → QueueRunResult → QueueRunResult
count_status success r = record r { succeeded = suc r.succeeded }
count_status cached r = record r { cached_count = suc r.cached_count }
count_status failed r = record r { failed_count = suc r.failed_count }
count_status _ r = r

module _ {W : Type 0} ⦃f : Float W⦄ (settings : Settings W) where
  unfoldable pub escalated_cooldown_seconds : ℕ → W
  escalated_cooldown_seconds consecutive =
      let cooldown =
        f.mul settings.fundamental_rate_limit_cooldown_seconds
          (f.pow settings.fundamental_rate_limit_backoff_multiplier (consecutive - 1)) in
      if f.lt settings.fundamental_rate_limit_max_cooldown_seconds cooldown
      then settings.fundamental_rate_limit_max_cooldown_seconds
      else cooldown

  -- `_paused_until() is not None`: the seconds since the rate limit are fewer than the cooldown
  unfoldable pub is_paused : List FetchLog → ℕ → Bool
  unfolding most_recent_rate_limit count_consecutive_rate_limits escalated_cooldown_seconds
  is_paused log now = elim (most_recent_rate_limit log) [
    | none ↦ false
    | some limited_at ↦
        f.lt (f.lit (now - limited_at))
          (escalated_cooldown_seconds (count_consecutive_rate_limits log))
  ]

  -- The provider's answers, by attempt (an exception is FAILED); the names of the rows' symbols; and the
  -- database's clock, by the number of rows in the log.
  module _ (answer : ℕ → String → FetchStatus) (symbols : ℕ → Option String) (clock : ℕ → ℕ) where
    unfoldable pub process_one : ℕ → String → FetchStatus → QueueRun W → QueueRun W
    unfolding count_status
    process_one symbol_id symbol status q =
        let counted = count_status status q.result in
        record {
          log =
              record { symbol_id = symbol_id; status = status; requested_at = clock (length q.log) }
              ∷ q.log;
          actions = request symbol status ∷ q.actions;
          result = record counted {
            processed = suc counted.processed;
            symbols = counted.symbols ++ (symbol ∷ []);
          };
        }

    abbrev pub limited : QueueRun W → QueueRun W
    limited q = record q { result = record q.result { is_limited = true } }

    -- `if i < len(batch) - 1: sleep(...)`, and the pause between two batches
    abbrev pub pause {ℓ} : {A : Type ℓ} → W → List A → QueueRun W → QueueRun W
    pause seconds [] q = q
    pause seconds (_ ∷ _) q = record q { actions = sleep seconds ∷ q.actions }

    -- One batch; `true` is a return at a rate limit.
    unfoldable pub run_batch : List ℕ → QueueRun W → QueueRun W × Bool
    unfolding process_one
    run_batch [] q = (q, false)
    run_batch (symbol_id ∷ rest) q = elim (symbols symbol_id) [
      | none ↦ run_batch rest q
      | some symbol ↦
          let status = answer (length q.log) symbol in
          let done = process_one symbol_id symbol status q in
          elim (is_rate_limited status) [
            | true ↦ (limited done, true)
            | false ↦ run_batch rest (pause settings.fundamental_request_delay_seconds rest done)
          ]
    ]

    unfoldable pub run_batches : List (List ℕ) → QueueRun W → QueueRun W
    unfolding run_batch
    run_batches [] q = q
    run_batches (b ∷ more) q =
        let done = (run_batch b q).0 in
        elim (run_batch b q).1 [
          | true ↦ done
          | false ↦ run_batches more (pause settings.fundamental_batch_delay_seconds more done)
        ]

    -- `is_locked_out`: the advisory lock is held elsewhere; `pending` are the symbols of the rows
    unfoldable pub run_queue : Runtime → Bool → ℕ → List ℕ → List FetchLog → QueueRun W
    unfolding is_paused count_today batches run_batches
    run_queue rt is_locked_out now rows log =
        let start : QueueRun W = record { log = log; actions = []; result = no_run } in
        let requests_today = count_today rt now log in
        if is_locked_out
        then start
        else if is_paused log now
        then start
        else if leb settings.fundamental_max_requests_per_day requests_today
        then record start { result = record no_run { budget_exhausted = true } }
        else let budget =
            min settings.fundamental_max_requests_per_run
              (settings.fundamental_max_requests_per_day - requests_today) in
          let pending = take budget rows in
          run_batches (batches (length pending) (max 1 settings.fundamental_batch_size) pending)
            start
