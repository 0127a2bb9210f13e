-- ===== src/Ledger.antt =====
-- Package internal/modules/ledger.
pub mod Types
pub mod Json
pub mod Account
pub mod State
pub mod Requests
pub mod Monitors
pub mod Store
pub mod Engine
pub mod Holds
pub mod Pending
pub mod Validate
pub mod Service
pub mod Batcher
pub mod Schedules
pub mod Seal
pub mod Categories
