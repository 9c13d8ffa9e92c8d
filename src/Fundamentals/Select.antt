-- ===== src/Fundamentals/Select.antt =====
-- app/fundamentals/queue_service.py: `_select_pending` and the order of the queue. Times are in seconds. What
-- `datetime.fromisoformat` reads, if it reads the text, is an argument; the queue itself writes the times, with
-- their zone, so that none lacks it.
use ai_market_scanning_engin.Prelude.{
  ℕ, ◌+◌, ◌*◌, String, Bool, true, false, not, ◌&&◌, ◌||◌, Option, none, some, List, [], ◌∷◌, ◌==◌,
  if◌then◌else◌, str_eq, ltb, Float,
}
use ai_market_scanning_engin.Prelude.Sorting.{sort}
use ai_market_scanning_engin.Settings.{Settings}
use ai_market_scanning_engin.Values.{Value, null, flag, number, text, nested, Snapshot, get, shown}
use ai_market_scanning_engin.Scanning.Tables.{ResultRow}

-- `scanner_name in CANDIDATE_SCANNER_NAMES`
unfoldable pub is_candidate_scanner : String → Bool
is_candidate_scanner name =
    str_eq name "fno_momentum_v1" || str_eq name "pre_breakout_v1" || str_eq name "ipo_intraday_v1"

abbrev pub qualified_tier_cap : ℕ
qualified_tier_cap = 2

abbrev pub rejected_tier : ℕ
rejected_tier = 3

abbrev pub fallback_tier : ℕ
fallback_tier = 4

-- `_SETUP_STATE_TIER.get(setup_state, _FALLBACK_TIER)`
unfoldable pub setup_state_tier : String → ℕ
setup_state_tier state =
    if str_eq state "BREAKOUT_CONFIRMED"
    then 0
    else if str_eq state "MOMENTUM"
    then 1
    else if str_eq state "PRE_BREAKOUT"
    then 2
    else fallback_tier

module _ {W : Type 0} where
  -- `value == "SUCCESS"`
  unfoldable pub is_success : Value W → Bool
  is_success (text s) = str_eq s "SUCCESS"
  is_success _ = false

  unfoldable pub time_of : (String → Option ℕ) → Value W → Option ℕ
  time_of fromisoformat (text s) = fromisoformat s
  time_of fromisoformat _ = none

module _ {W : Type 0} ⦃f : Float W⦄ where
  unfoldable pub coerce_float : Value W → W
  coerce_float null = f.lit 0
  coerce_float (flag true) = f.lit 1
  coerce_float (flag false) = f.lit 0
  coerce_float (number x) = x
  coerce_float (text s) = elim (f.of_text s) [ none ↦ f.lit 0 | some x ↦ x ]
  coerce_float (nested empty s) = f.lit 0

  -- the tier, and the score that the key has with its sign changed
  unfoldable pub priority_key : ResultRow W → ℕ × W
  unfolding get shown coerce_float setup_state_tier
  priority_key row =
      let tier = setup_state_tier (shown (get "setup_state" row.feature_snapshot)) in
      let score = coerce_float (get "technical_score" row.feature_snapshot) in
      let capped =
        if ltb qualified_tier_cap tier
        then if row.is_qualified then fallback_tier else rejected_tier
        else tier in
      (capped, score)

  -- `<` of two keys: `-a < -b` is `b < a`
  unfoldable pub key_lt : ℕ × W → ℕ × W → Bool
  key_lt (s, a) (t, b) = ltb s t || (s == t && f.lt b a)

  unfoldable pub goes_before : ResultRow W → ResultRow W → Bool
  unfolding priority_key key_lt
  goes_before a b = key_lt (priority_key a) (priority_key b)

  module _ (settings : Settings W) (fromisoformat : String → Option ℕ) (now : ℕ) where
    -- fetched within the time to live, so that it is not fetched again
    unfoldable pub is_recent : Snapshot W → Bool
    unfolding get is_success time_of
    is_recent snapshot =
        if is_success (get "fundamental_status" snapshot)
        then elim (time_of fromisoformat (get "fundamental_fetched_at" snapshot)) [
          | none ↦ false
          | some fetched_at ↦ ltb now (fetched_at + settings.fundamental_cache_ttl_minutes * 60)
        ]
        else false

    unfoldable pub pending_rows : List (ResultRow W) → List (ResultRow W)
    unfolding is_recent is_candidate_scanner
    pending_rows [] = []
    pending_rows (r ∷ rest) =
        let others = pending_rows rest in
        if is_candidate_scanner r.scanner_name && not (is_recent r.feature_snapshot)
        then r ∷ others
        else others

    unfoldable pub select_pending : List (ResultRow W) → List (ResultRow W)
    unfolding pending_rows goes_before sort
    select_pending rows = sort goes_before (pending_rows rows)
