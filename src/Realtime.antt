-- ===== src/Realtime.antt =====
-- The realtime side of the backend: provider subscriptions, the quote cache and intraday candles.
pub mod Quote
pub mod Subscription
pub mod Intraday
pub mod Feed
pub mod Hub
