-- ===== src/Settings.antt =====
-- The values of app/config/settings.py that the modelled code reads.
use ai_market_scanning_engin.Prelude.{ℕ}

pub record Settings (W : Type 0) : Type 0 where
  pub decision_min_alert_score : W
  pub decision_min_rvol : W
  pub decision_min_adx : W
  pub decision_resistance_distance_percent : W
  pub decision_max_data_age_days : ℕ
  pub alert_cooldown_minutes : ℕ
  pub alert_high_priority_score : W
  pub alert_expiry_minutes : ℕ
  pub alert_max_retries : ℕ
  pub pipeline_min_confidence_pct : W
  pub momentum_observation_stale_data_threshold_seconds : ℕ
  pub fundamental_cache_ttl_minutes : ℕ
  pub fundamental_max_requests_per_day : ℕ
  pub fundamental_max_requests_per_run : ℕ
  pub fundamental_batch_size : ℕ
  pub fundamental_request_delay_seconds : W
  pub fundamental_batch_delay_seconds : W
  pub fundamental_rate_limit_cooldown_seconds : W
  pub fundamental_rate_limit_backoff_multiplier : W
  pub fundamental_rate_limit_max_cooldown_seconds : W
  pub market_open_time : ℕ
  pub market_close_time : ℕ
  pub scanner_breakout_adx_threshold : W
  pub scanner_breakout_relative_volume_threshold : W
  pub scanner_breakout_volume_increasing_min_relative_volume : W
  pub scanner_breakout_resistance_proximity_pct : W
  pub scanner_score_weight_trend : W
  pub scanner_score_weight_momentum : W
  pub scanner_score_weight_volume : W
  pub scanner_score_weight_volatility : W
  pub scanner_score_weight_relative_strength : W
  pub scanner_score_weight_support_resistance : W
  pub scanner_momentum_min_score : W
  pub pre_breakout_proximity_pct : W
  pub fno_momentum_min_rvol : W
  pub fno_momentum_min_adx : W
  pub fno_momentum_min_score : W
  pub pre_breakout_min_score : W
  pub ipo_intraday_min_rvol : W
  pub ipo_intraday_min_score : W
  pub ipo_intraday_max_pct_below_52w_high : W
  pub ipo_intraday_min_pct_above_52w_low : W
  pub ipo_intraday_min_price : W
  pub ipo_intraday_min_volume : W
  pub overall_fundamental_weight : W
  pub overall_technical_weight : W
  pub signal_fusion_weight_technical : W
  pub signal_fusion_weight_volume : W
  pub signal_fusion_weight_oi : W
  pub signal_fusion_weight_sector_rrg : W
  pub signal_fusion_weight_market_regime : W
  pub signal_fusion_weight_news : W
  pub signal_fusion_weight_fundamentals : W
