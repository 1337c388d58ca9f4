-- ===== src/Auth.antt =====
-- Accounts, sessions and devices (backend/app/services/auth.py, backend/app/repositories/models.py).
pub mod Types
pub mod Service
pub mod Revocation
mod Keeps
pub mod Access
mod Examples
