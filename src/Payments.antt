-- ===== src/Payments.antt =====
-- Selling access: entitlements, the payment ledger and revenue (src/services).
pub mod Licensing
pub mod Revenue
pub mod Ledger
pub mod Clearing
pub mod Payouts
mod Tests
mod ClearingTests
mod PayoutTests
