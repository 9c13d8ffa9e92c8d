-- ===== src/Runtime.antt =====
-- What the modelled code takes from outside: hashing, and the calendar date of an instant. An instant
-- is a whole number of seconds since the epoch, and a date is its day number.
use ai_market_scanning_engin.Prelude.{ℕ, String, ◌%◌, ◌/◌, Option, none}

pub record Runtime : Type 0 where
  -- `hashlib.sha256(raw.encode()).hexdigest()`
  pub sha256 : String → String
  -- `moment.date().isoformat()`
  pub iso_date : ℕ → String
  -- `to_market_time(moment, settings.market_timezone).date()`
  pub market_date : ℕ → ℕ
  -- the seconds since midnight of the same local time
  pub market_time : ℕ → ℕ
  -- `date.isoformat()`
  pub iso_of_date : ℕ → String
  -- `date.fromisoformat(text)`, or `none` where it raises `ValueError`
  pub from_iso : String → Option ℕ
  -- `text.split(separator)[0]`
  pub before : (text separator : String) → String
  -- `text.upper()`
  pub upper : String → String

abbrev pub plain_runtime : Runtime
plain_runtime = record {
  sha256 = λ s. s;
  iso_date = λ t. "2026-07-01";
  market_date = λ t. t / 86_400;
  market_time = λ t. t % 86_400;
  iso_of_date = λ d. "2026-07-01";
  from_iso = λ s. none;
  before = λ text separator. text;
  upper = λ text. text;
}
