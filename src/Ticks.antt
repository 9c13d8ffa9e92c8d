-- ===== src/Ticks.antt =====
-- Live ticks made into candles, and the checks that a candle passes before it is stored.
pub mod Models
pub mod Aggregator
pub mod Validator
pub mod Streams
pub mod Bars
pub mod Chains
pub mod Cleaning
pub mod Volume
