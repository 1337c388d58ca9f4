-- ===== src/Realtime/Hub.antt =====
-- `RealtimeQuoteHub` (backend/app/services/realtime_hub.py): the connections, what they subscribe to,
-- and the calls of the subscription manager that they own.
pub mod Interface
pub mod Session
pub mod Targets
pub mod Owned
pub mod Handlers
pub mod Endpoint
pub mod Tables
pub mod Calls
pub mod Acquire
pub mod Release
pub mod Provider
pub mod Agrees
pub mod OwnedKeeps
pub mod Runs
pub mod Leaving
pub mod Dispatch
pub mod Coalesced
pub mod Latest
pub mod Server
pub mod Serves
pub mod Reached
pub mod Brokered
mod Examples
