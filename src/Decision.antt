-- ===== src/Decision.antt =====
-- The decision layer (app/decision).
pub mod Models
pub mod Validator
pub mod Rules
pub mod Evaluator
pub mod Verdicts
pub mod Engine
pub mod Tallies
pub mod Steps
