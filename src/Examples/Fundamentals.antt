-- ===== src/Examples/Fundamentals.antt =====
-- A run over four rows, in batches of two, that meets a rate limit at the third request.
use ai_market_scanning_engin.Fundamentals.Apply.{settle_row}
use ai_market_scanning_engin.Fundamentals.Settled.{IsSettled, settle_row-IsSettled}
use ai_market_scanning_engin.Scanners.Candidate.{Texts}
use ai_market_scanning_engin.Scanners.Builder.{ScoreResult, no_factors}
use ai_market_scanning_engin.Fundamentals.Select.{select_pending}
use ai_market_scanning_engin.Scanning.Tables.{ResultRow}
use ai_market_scanning_engin.Values.{Snapshot, text, number}
use ai_market_scanning_engin.Prelude.{
  arith, ◌-◌, ℕ, ◌+◌, ◌≡◌, refl, String, false, Option, none, some, List, [], ◌∷◌, ◌==◌,
  if◌then◌else◌, length, true, str_eq, Bool, map,
}
use ai_market_scanning_engin.Prelude.Floats.{Whole, whole_float}
use ai_market_scanning_engin.Runtime.{plain_runtime}
use ai_market_scanning_engin.Settings.{Settings}
use ai_market_scanning_engin.Examples.Inputs.{defaults}
use ai_market_scanning_engin.Fundamentals.Log.{
  FetchLog, count_consecutive_rate_limits, FetchStatus, success, rate_limited,
}
use ai_market_scanning_engin.Fundamentals.Queue.{
  no_run, escalated_cooldown_seconds, request, sleep, QueueRun, run_queue,
}
use ai_market_scanning_engin.Fundamentals.Budget.{IsWithin, run_queue-IsWithin}
use ai_market_scanning_engin.Fundamentals.Pacing.{IsPaced, run_queue-IsPaced}
use ai_market_scanning_engin.Fundamentals.Cooldown.{run_queue-cooldown}
use ai_market_scanning_engin.Fundamentals.Served.{Served}

abbrev in_twos : Settings Whole
in_twos = record defaults { fundamental_batch_size = 2 }

abbrev answer : ℕ → String → FetchStatus
answer n symbol = if n == 2 then rate_limited else success

abbrev names : ℕ → Option String
names id = if id == 9 then none else some "TCS"

abbrev clock : ℕ → ℕ
clock n = 1_782_900_000 + n

abbrev a_run : QueueRun Whole
a_run =
    run_queue in_twos answer names clock plain_runtime false 1_782_900_000 (1 ∷ 2 ∷ 9 ∷ 3 ∷ 4 ∷ [])
      []

three_requests :
    a_run.actions
    ≡ request "TCS" rate_limited
      ∷ sleep (some 30)
      ∷ request "TCS" success
      ∷ sleep (some 2)
      ∷ request "TCS" success
      ∷ []
unfolding run_queue
three_requests = refl

run_queue-IsWithin_example : IsWithin in_twos plain_runtime 1_782_900_000 [] a_run
run_queue-IsWithin_example =
    run_queue-IsWithin in_twos plain_runtime answer names clock false 1_782_900_000
      (1 ∷ 2 ∷ 9 ∷ 3 ∷ 4 ∷ []) []

run_queue-IsPaced_example : IsPaced a_run.actions
run_queue-IsPaced_example =
    run_queue-IsPaced in_twos answer names clock plain_runtime false 1_782_900_000
      (1 ∷ 2 ∷ 9 ∷ 3 ∷ 4 ∷ []) []

abbrev limit : FetchLog
limit = record { symbol_id = 3; status = rate_limited; requested_at = 1_782_900_002 }

abbrev before : List FetchLog
before = record { symbol_id = 2; status = success; requested_at = 1_782_900_001 } ∷ []

-- 1799 seconds after the limit, of a cooldown of 1800
still_cooling :
    whole_float.lt
      (whole_float.lit (1_782_901_801 - limit.requested_at))
      (escalated_cooldown_seconds in_twos (count_consecutive_rate_limits (limit ∷ before)))
    ≡ true
unfolding escalated_cooldown_seconds count_consecutive_rate_limits
still_cooling = refl

run_queue-cooldown_example :
    run_queue in_twos answer names clock plain_runtime false 1_782_901_801 (1 ∷ []) (limit ∷ before)
    ≡ record { log = limit ∷ before; actions = []; result = no_run }
run_queue-cooldown_example =
    run_queue-cooldown in_twos answer names clock plain_runtime false 1_782_901_801 (1 ∷ []) limit
      before refl (ground arith) still_cooling

abbrev row_of : ℕ → String → Bool → Snapshot Whole → ResultRow Whole
row_of id scanner_name qualified snapshot = record {
  symbol_id = id;
  scanner_name = scanner_name;
  date = 739_800;
  score = some 50;
  is_qualified = qualified;
  reason = [];
  feature_snapshot = snapshot;
}

abbrev state_and_score : String → ℕ → Snapshot Whole
state_and_score state n = ("setup_state", text state) ∷ ("technical_score", number (some n)) ∷ []

abbrev fetched : Snapshot Whole
fetched =
    ("fundamental_status", text "SUCCESS")
    ∷ ("fundamental_fetched_at", text "an hour ago")
    ∷ state_and_score "MOMENTUM" 90

abbrev table : List (ResultRow Whole)
table =
    row_of 1 "fno_momentum_v1" true (state_and_score "MOMENTUM" 60)
    ∷ row_of 2 "breakout_v1" true (state_and_score "MOMENTUM" 99)
    ∷ row_of 3 "fno_momentum_v1" false (state_and_score "WATCH" 80)
    ∷ row_of 4 "fno_momentum_v1" true fetched
    ∷ row_of 5 "pre_breakout_v1" true (state_and_score "BREAKOUT_CONFIRMED" 10)
    ∷ row_of 6 "ipo_intraday_v1" true (state_and_score "MOMENTUM" 60)
    ∷ []

abbrev hour_ago : String → Option ℕ
hour_ago s = if str_eq s "an hour ago" then some 1_782_896_400 else none

the_queue :
    map (λ r. r.symbol_id) (select_pending defaults hour_ago 1_782_900_000 table)
    ≡ 5 ∷ 1 ∷ 6 ∷ 3 ∷ []
unfolding select_pending
the_queue = refl

abbrev scored_half : ℕ → ScoreResult (Option Whole) Whole
scored_half found = record {
  score = some (some 50);
  completeness = some 100;
  positive_reasons = [];
  risk_flags = [];
  factors = no_factors;
}

abbrev no_texts : Texts
no_texts = record { iso = λ n. ""; joined = λ parts. ""; list_text = λ items. "" }

abbrev written : ℕ → String
written t = if t == 1_782_896_400 then "an hour ago" else "later"

abbrev first_row : ResultRow Whole
first_row = row_of 1 "fno_momentum_v1" true (state_and_score "MOMENTUM" 60)

abbrev settled_row : ResultRow Whole
settled_row =
    settle_row defaults no_texts scored_half (λ found. no_factors) written (some 7) success
      1_782_896_400 first_row

-- four hours of 3600 seconds after the fetch
served_then_due :
    (length (select_pending defaults hour_ago 1_782_910_799 (settled_row ∷ [])) ≡ 0)
    × (length (select_pending defaults hour_ago 1_782_910_800 (settled_row ∷ [])) ≡ 1)
unfolding select_pending settle_row
served_then_due = (refl, refl)

settle_row-IsSettled_example :
    IsSettled {F = ℕ} defaults hour_ago (some 7) success 1_782_896_400 first_row settled_row
settle_row-IsSettled_example =
    settle_row-IsSettled defaults no_texts scored_half (λ found. no_factors) written hour_ago
      (some 7) success 1_782_896_400 first_row refl
