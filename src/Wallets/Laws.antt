-- ===== src/Wallets/Laws.antt =====
-- What the methods of backend/src/wallets/wallets.service.ts promise.
mod Conversions
mod Settled
pub mod Deposit
pub mod Refinement
pub mod Atomicity
pub mod Reviews
pub mod Transfers
pub mod Reads
