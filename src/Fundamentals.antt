-- ===== src/Fundamentals.antt =====
-- The paced queue of fundamental fetches (app/fundamentals/queue_service.py).
pub mod Log
pub mod Queue
pub mod Budget
pub mod Pacing
pub mod Cooldown
pub mod Batches
pub mod Served
pub mod Select
pub mod Tiers
pub mod Pending
pub mod Priority
pub mod Apply
pub mod Settled
