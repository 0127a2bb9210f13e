-- ===== src/Tests.antt =====
-- Tests on concrete data, and an instance of each theorem that has hypotheses.
mod Money
pub mod State
pub mod Engine
mod Pending
mod Holds
pub mod Service
mod Accounts
mod Kernel
mod Seal
mod Schedules
mod Delivery
mod Categories
