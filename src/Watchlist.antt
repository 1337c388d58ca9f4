-- ===== src/Watchlist.antt =====
-- Watchlists (backend/app/services/watchlist.py, backend/app/repositories/sql_watchlist.py).
pub mod Types
pub mod Rows
pub mod Repository
pub mod Service
pub mod Overview
pub mod Keys
pub mod Counted
pub mod Placed
pub mod Places
pub mod Calls
pub mod Kept
pub mod Apart
pub mod Effects
pub mod Invariant
pub mod Fresh
pub mod Isolation
mod Examples
