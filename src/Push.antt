-- ===== src/Push.antt =====
-- Push notifications (backend/app/services/push_notifications.py).
pub mod Types
pub mod Tokens
pub mod Materialize
pub mod Delivery
pub mod Fcm
pub mod Machine
pub mod Attempts
pub mod Coherent
pub mod Refinement
pub mod Induction
pub mod History
pub mod Served
pub mod Drained
pub mod TokenKeys
pub mod Unique
mod Examples
pub mod Outbox
pub mod Calls
