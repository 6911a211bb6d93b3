-- ===== src/Wallets.antt =====
-- backend/src/wallets/wallets.service.ts.
pub mod Access
pub mod Settlement
pub mod Deposit
pub mod Withdrawal
pub mod Review
pub mod Adjustment
pub mod Transfer
pub mod Reads
mod Tables
pub mod Requests
pub mod Ledger
pub mod Laws
