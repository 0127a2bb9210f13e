-- ===== src/Money.antt =====
-- Package internal/money.
pub mod Words
pub mod Digits
pub mod Written
pub mod Amount
