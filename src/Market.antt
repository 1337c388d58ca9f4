-- ===== src/Market.antt =====
-- The kinds of market data that the components share (backend/app/domain/market_data.py).
use tw_stock_android_spec.Base.{Bool, true, false}

pub data DataStatus : Type 0 where
  live delayed preliminary final stale partial unavailable : DataStatus

abbrev pub is_unavailable : DataStatus → Bool
is_unavailable unavailable = true
is_unavailable _ = false
