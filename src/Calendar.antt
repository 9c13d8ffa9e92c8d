-- ===== src/Calendar.antt =====
-- The NSE trading calendar (app/market_calendar) and the market-hours test that rests on it.
pub mod Dates
pub mod Holidays
pub mod Trading
pub mod Walks
pub mod Year
