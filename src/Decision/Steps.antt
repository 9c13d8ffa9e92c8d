-- ===== src/Decision/Steps.antt =====
-- app/decision/engine.py: a pass as steps of the alert manager.
use ai_market_scanning_engin.Runtime.{Runtime}
use ai_market_scanning_engin.Settings.{Settings}
use ai_market_scanning_engin.Decision.Models.{Decision}
