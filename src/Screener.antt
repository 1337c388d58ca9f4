-- ===== src/Screener.antt =====
-- The screener's condition trees (backend/app/domain/screener.py, backend/app/services/screener_ast.py).
pub mod Types
pub mod Ast
pub mod Roundtrip
pub mod Whitelist
mod Examples
