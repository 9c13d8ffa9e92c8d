-- ===== src/Alerts.antt =====
-- The alert engine (app/alerts) over its tables (app/repositories/alert_repository.py).
pub mod Store
pub mod Manager
pub mod Outcomes
pub mod Uniqueness
pub mod Spacing
pub mod History
