-- ===== src/Candle.antt =====
-- Daily, weekly and monthly candles (backend/app/services/candle_aggregation.py,
-- backend/app/domain/pricing.py).
pub mod Aggregation
pub mod Bounds
pub mod Volume
mod Examples
