-- ===== src/Sync.antt =====
-- Cloud sync of personal data (backend/app/services/cloud_sync.py): push, conflict, tombstone, pull.
pub mod Types
pub mod Build
pub mod Payload
pub mod Update
pub mod Push
pub mod Built
pub mod Effect
pub mod Step
pub mod Isolation
pub mod Replay
pub mod Pull
pub mod Log
pub mod Paging
pub mod Races
mod Examples
