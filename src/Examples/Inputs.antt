-- ===== src/Examples/Inputs.antt =====
-- Concrete settings, decisions and tables. The numbers are the whole parts of the defaults of app/config/settings.py.
use ai_market_scanning_engin.Prelude.{ℕ, some, none, [], ◌∷◌, true, String, ◌+◌}
use ai_market_scanning_engin.Prelude.Floats.{Whole}
use ai_market_scanning_engin.Settings.{Settings}
use ai_market_scanning_engin.Values.{Value, number, text, nested}
use ai_market_scanning_engin.Decision.Models.{DecisionResult, alert, high, medium}
use ai_market_scanning_engin.Alerts.Store.{Alert, AlertStore, Status, pending, expired}

abbrev pub defaults : Settings Whole
defaults = record {
  decision_min_alert_score = some 80;
  decision_min_rvol = some 2;
  decision_min_adx = some 25;
  decision_resistance_distance_percent = some 3;
  decision_max_data_age_days = 1;
  alert_cooldown_minutes = 30;
  alert_high_priority_score = some 90;
  alert_expiry_minutes = 240;
  alert_max_retries = 3;
  pipeline_min_confidence_pct = some 40;
  momentum_observation_stale_data_threshold_seconds = 300;
  fundamental_cache_ttl_minutes = 240;
  fundamental_max_requests_per_day = 20_000;
  fundamental_max_requests_per_run = 5_000;
  fundamental_batch_size = 10;
  fundamental_request_delay_seconds = some 2;
  fundamental_batch_delay_seconds = some 30;
  fundamental_rate_limit_cooldown_seconds = some 1_800;
  fundamental_rate_limit_backoff_multiplier = some 2;
  fundamental_rate_limit_max_cooldown_seconds = some 21_600;
  scanner_breakout_adx_threshold = some 20;
  scanner_breakout_relative_volume_threshold = some 1;
  scanner_breakout_volume_increasing_min_relative_volume = some 1;
  scanner_breakout_resistance_proximity_pct = some 3;
  scanner_score_weight_trend = some 0;
  scanner_score_weight_momentum = some 0;
  scanner_score_weight_volume = some 0;
  scanner_score_weight_volatility = some 0;
  scanner_score_weight_relative_strength = some 0;
  scanner_score_weight_support_resistance = some 0;
  scanner_momentum_min_score = some 50;
  pre_breakout_proximity_pct = some 5;
  fno_momentum_min_rvol = some 1;
  fno_momentum_min_adx = some 20;
  fno_momentum_min_score = some 60;
  pre_breakout_min_score = some 55;
  ipo_intraday_min_rvol = some 1;
  ipo_intraday_min_score = some 55;
  ipo_intraday_max_pct_below_52w_high = some 10;
  ipo_intraday_min_pct_above_52w_low = some 100;
  ipo_intraday_min_price = some 25;
  ipo_intraday_min_volume = some 250000;
  overall_fundamental_weight = some 0;
  overall_technical_weight = some 0;
  signal_fusion_weight_technical = some 25;
  signal_fusion_weight_volume = some 15;
  signal_fusion_weight_oi = some 15;
  signal_fusion_weight_sector_rrg = some 15;
  signal_fusion_weight_market_regime = some 10;
  signal_fusion_weight_news = some 10;
  signal_fusion_weight_fundamentals = some 10;
  market_open_time = 33_300;
  market_close_time = 55_800;
}

abbrev pub breakout : DecisionResult Whole
breakout = record {
  symbol = "TCS";
  scanner_name = "breakout_v1";
  signal_type = "BREAKOUT";
  decision = alert;
  score = some 92;
  quality = some high;
  passed_rules = "minimum_score" ∷ [];
  failed_rules = [];
  warnings = [];
  feature_snapshot = ("price", number (some 3900)) ∷ ("resistance_level", number (some 3890)) ∷ [];
  timestamp = 1_782_900_000;
}

abbrev pub alert_of : ℕ → Status → String → Alert Whole
alert_of id status fingerprint = record {
  id = id;
  symbol_id = 7;
  scanner_name = "ipo_intraday_v1";
  signal_type = "IPO_INTRADAY";
  decision = alert;
  score = some 88;
  quality = medium;
  entry_reference = none;
  breakout_level = none;
  support_level = none;
  resistance_level = none;
  feature_snapshot = ("alert_category", text "IPO_BREAKOUT") ∷ [];
  passed_rules = [];
  status = status;
  fingerprint = fingerprint;
  signal_date = 20_635;
  created_at = 1_782_900_000 + id;
  expires_at = some 1_782_914_400;
}

-- an EXPIRED alert, and the one that took its place
abbrev pub reraised : AlertStore Whole
reraised = record {
  alerts = alert_of 2 pending "setup" ∷ alert_of 1 expired "setup" ∷ [];
  events = [];
  next_id = 3;
  queue = 1 ∷ 2 ∷ [];
  deliveries = [];
}

abbrev pub evidence : Value Whole
evidence = nested true "{}"
