-- ===== src/Engine.antt =====
-- The loyalty engine: packages/reference/src/engine.ts.
mod Tests
pub mod State
pub mod Fingerprint
pub mod Ledger
pub mod Lots
pub mod Balances
pub mod Tiers
pub mod Earning
pub mod Funding
pub mod Once
pub mod Issued
pub mod Redemption
pub mod Accrual
pub mod Adjustment
pub mod Members
pub mod Evolution
pub mod Listing
pub mod Snapshot
pub mod Checks
pub mod Program
pub mod Calls
