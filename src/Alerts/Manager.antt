-- ===== src/Alerts/Manager.antt =====
-- app/alerts/deduplicator.py, throttler.py and manager.py.
use ai_market_scanning_engin.Prelude.{
  ℕ, ◌+◌, ◌-◌, ◌*◌, String, Option, none, some, List, [], ◌∷◌, Float, if◌then◌else◌, Result, ok,
  raise,
}
use Prim.Native.String.{◌++◌ as append}
use ai_market_scanning_engin.Runtime.{Runtime}
use ai_market_scanning_engin.Settings.{Settings}
use ai_market_scanning_engin.Values.{text, get, either, shown}
use ai_market_scanning_engin.Decision.Models.{Decision, alert, Quality, DecisionResult}
use ai_market_scanning_engin.Decision.Validator.{as_float}
use ai_market_scanning_engin.Alerts.Store.{
  AlertStore, Alert, pending, is_expired, duplicate, cooldown, suppressed_event, created_event,
  queued_event, get_by_fingerprint, get_most_recent_for_signal, create, log, put,
}

pub data SuppressionResult : Type 0 where
  not_suppressed : SuppressionResult
  suppressed : (blocking_alert_id : ℕ) → SuppressionResult

-- A worker's heartbeat row: `ping_run`, or `ping_success` with the verdict it tells of.
pub data Heartbeat : Type 0 where
  ping_run : Heartbeat
  ping_success : Decision → Heartbeat

-- `assert decision.quality is not None`
pub data AssertionError : Type 0 where
  quality_missing : AssertionError

-- `"|".join(parts)`
unfoldable pub join_bars : List String → String
join_bars [] = ""
join_bars (s ∷ []) = s
join_bars (s ∷ t ∷ rest) = append s (append "|" (join_bars (t ∷ rest)))

module _ {W : Type 0} where
  -- `AlertDeduplicator.check`
  unfoldable pub check_duplicate : String → AlertStore W → SuppressionResult
  check_duplicate fingerprint s = elim (get_by_fingerprint fingerprint s) [
    | none ↦ not_suppressed
    | some existing ↦ if is_expired existing.status then not_suppressed else suppressed existing.id
  ]

  -- `AlertThrottler.check`
  unfoldable pub check_cooldown : Settings W → ℕ → String → ℕ → AlertStore W → SuppressionResult
  check_cooldown settings symbol_id signal_type now s =
      elim (get_most_recent_for_signal symbol_id signal_type
        (now - settings.alert_cooldown_minutes * 60) s) [
          | none ↦ not_suppressed
          | some recent ↦ suppressed recent.id
        ]

  -- the body of `_process_impl` behind the two guards: the row, its events, and the queue
  unfoldable pub raise_new : (ℕ → Alert W) → AlertStore W → AlertStore W × Option ℕ
  unfolding create log put
  raise_new row s =
      let id = s.next_id in
      (log id queued_event (put id (log id created_event (create row s))), some id)

  unfoldable pub throttled :
      SuppressionResult → (ℕ → Alert W) → AlertStore W → AlertStore W × Option ℕ
  unfolding raise_new log
  throttled (suppressed id) row s = (log id (suppressed_event cooldown) s, none)
  throttled not_suppressed row s = raise_new row s

  unfoldable pub deduplicated :
      SuppressionResult → SuppressionResult → (ℕ → Alert W) → AlertStore W → AlertStore W × Option ℕ
  unfolding throttled log
  deduplicated (suppressed id) cooled row s = (log id (suppressed_event duplicate) s, none)
  deduplicated not_suppressed cooled row s = throttled cooled row s

module _ (rt : Runtime) {W : Type 0} ⦃f : Float W⦄ where
  unfoldable pub raw_fingerprint : DecisionResult W → List String
  unfolding get either shown
  raw_fingerprint d =
      let level =
        either (get "breakout_level" d.feature_snapshot)
          (get "resistance_level" d.feature_snapshot) in
      let signal_date = either (get "date" d.feature_snapshot) (text (rt.iso_date d.timestamp)) in
      d.symbol ∷ d.scanner_name ∷ d.signal_type ∷ shown level ∷ shown signal_date ∷ []

  unfoldable pub build_fingerprint : DecisionResult W → String
  unfolding raw_fingerprint join_bars
  build_fingerprint d = rt.sha256 (join_bars (raw_fingerprint d))

  -- the row that `alert_repo.create` inserts; `created_at` is the database's clock
  unfoldable pub alert_row : Settings W → DecisionResult W → Quality → ℕ → ℕ → ℕ → ℕ → Alert W
  unfolding build_fingerprint as_float
  alert_row settings d quality symbol_id moment db_now id =
      let snapshot = d.feature_snapshot in
      let resistance = as_float snapshot "resistance_level" in
      record {
        id = id;
        symbol_id = symbol_id;
        scanner_name = d.scanner_name;
        signal_type = d.signal_type;
        decision = d.decision;
        score = f.round2 d.score;
        quality = quality;
        entry_reference = as_float snapshot "price";
        breakout_level = elim (as_float snapshot "breakout_level") [
          | none ↦ resistance
          | some x ↦ some x
        ];
        support_level = as_float snapshot "support_level";
        resistance_level = resistance;
        feature_snapshot = snapshot;
        passed_rules = d.passed_rules;
        status = pending;
        fingerprint = build_fingerprint d;
        signal_date = rt.market_date moment;
        created_at = db_now;
        expires_at = some (moment + settings.alert_expiry_minutes * 60);
      }

  -- an ALERT verdict, its quality known
  unfoldable pub process_alert :
      Settings W → DecisionResult W → Quality → ℕ → ℕ → ℕ → AlertStore W → AlertStore W × Option ℕ
  unfolding deduplicated
  process_alert settings d quality symbol_id moment db_now s =
      deduplicated (check_duplicate (build_fingerprint d) s)
        (check_cooldown settings symbol_id d.signal_type moment s)
        (alert_row settings d quality symbol_id moment db_now) s

  unfoldable pub process_impl :
      Settings W
      → DecisionResult W
      → ℕ
      → ℕ
      → ℕ
      → AlertStore W
      → Result AssertionError (AlertStore W × Option ℕ)
  unfolding process_alert
  process_impl settings d symbol_id moment db_now s = elim d.decision [
    | alert ↦ elim d.quality [
      | none ↦ raise quality_missing
      | some quality ↦ ok (process_alert settings d quality symbol_id moment db_now s)
    ]
    | _ ↦ ok (s, none)
  ]

  -- `process`: the heartbeat that the call leaves, and what it returns or raises.
  unfoldable pub process :
      Settings W
      → DecisionResult W
      → ℕ
      → ℕ
      → ℕ
      → AlertStore W
      → Heartbeat × Result AssertionError (AlertStore W × Option ℕ)
  unfolding process_impl
  process settings d symbol_id moment db_now s =
      elim (process_impl settings d symbol_id moment db_now s) [
        | raise e ↦ (ping_run, raise e)
        | ok answer ↦ (ping_success d.decision, ok answer)
      ]
