-- ===== src/Scanning.antt =====
-- app/scanner: the strategies, the manager that runs one, and the engine that runs them all.
pub mod Tables
pub mod Models
pub mod Manager
pub mod Batches
pub mod Verdicts
pub mod Passes
pub mod Counts
pub mod Standing
pub mod Keys
pub mod Engine
pub mod Runs
pub mod Days
pub mod Errors
pub mod Rows
