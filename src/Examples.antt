-- ===== src/Examples.antt =====
-- Runs on concrete inputs, and the theorems at inputs where their hypotheses hold.
mod Inputs
mod Momentum
mod Alerts
mod Notifications
mod Calendar
mod Decision
mod Ticks
mod Pipeline
mod Fundamentals
mod Scanning
mod Signals
