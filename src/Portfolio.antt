-- ===== src/Portfolio.antt =====
-- Portfolio accounting: transactions, positions, holdings and their summary
-- (backend/app/services/portfolio.py, backend/app/domain/portfolio.py).
pub mod Types
pub mod Replay
pub mod Service
pub mod Holdings
pub mod Quantity
pub mod Closed
pub mod Ledger
mod Examples
