-- ===== src/Indicator.antt =====
-- Technical indicators (backend/app/services/technical_indicators.py).
pub mod Series
pub mod Averages
pub mod Oscillators
pub mod Volatility
pub mod Calculate
pub mod Front
pub mod Causal
pub mod CausalPrices
pub mod CausalRanges
pub mod Writes
pub mod CausalMacd
pub mod Columns
pub mod NoLookAhead
pub mod Parameters
pub mod Described
mod Examples
