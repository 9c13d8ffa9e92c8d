-- ===== src/Scanners.antt =====
-- The strategies over the listed universe (app/scanner/*_scanner.py).
pub mod Candidate
pub mod Contexts
pub mod Composite
pub mod Validator
pub mod Breakout
pub mod Vcp
pub mod Momentum
pub mod Orb
pub mod Builder
pub mod Candidates
pub mod CandidateScans
pub mod Universes
pub mod Built
pub mod Answers
pub mod Registry
pub mod Safety
pub mod Updates
pub mod Labels
pub mod Bounds
pub mod Scores
