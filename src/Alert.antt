-- ===== src/Alert.antt =====
-- Alert rules, their evaluation at the end of a trading day, and the limits on their notifications
-- (backend/app/domain/alert.py, backend/app/services/alert_evaluators.py,
-- backend/app/services/alerts.py, backend/app/repositories/sql_alert.py).
pub mod Types
pub mod Rule
pub mod Calendar
pub mod Evaluator
pub mod Service
pub mod Validated
pub mod Limits
pub mod Fingerprints
mod Examples
