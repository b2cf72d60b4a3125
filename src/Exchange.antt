-- ===== src/Exchange.antt =====
-- internal/exchange: bid and ask quotes, the trading state and the volatility circuit breaker.
pub mod Types
pub mod Pricing
pub mod Volatility
pub mod State
mod Tests
