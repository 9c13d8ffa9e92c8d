-- ===== src/Signals.antt =====
-- The fusion of seven components into one score (app/signals).
pub mod Models
pub mod Components
pub mod Engine
pub mod Named
pub mod Fused
