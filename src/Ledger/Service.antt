-- ===== src/Ledger/Service.antt =====
-- The operations of internal/modules/ledger/service.go, and of ledgers.go.
pub mod Patch
pub mod Details
pub mod Accounts
pub mod Statuses
pub mod Closed
pub mod Created
pub mod Reachable
pub mod Ledgers
pub mod Batches
pub mod Batched
pub mod Balanced
pub mod Reversals
pub mod Reversed
