-- ===== src/Pipeline.antt =====
-- The momentum pipeline (app/decision/momentum_decision_engine.py, momentum_pipeline_coordinator.py).
pub mod Decide
pub mod Coordinator
pub mod Standing
pub mod Run
pub mod Tallies
