-- ===== src/Kernel.antt =====
-- Packages below internal/kernel.
pub mod Tx
pub mod Idempotency
pub mod Delivery
