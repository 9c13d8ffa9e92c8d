-- ===== src/Momentum.antt =====
-- The momentum state machine (app/momentum) and the table that it keeps (app/repositories/
-- momentum_state_repository.py).
pub mod States
pub mod Machine
pub mod Edges
pub mod Lifecycle
pub mod Repository
pub mod Engine
pub mod Log
