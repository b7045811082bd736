-- ===== src/Token.antt =====
-- pallet-fuso-token: the ledger of every token but the native one.
-- Source: pallet-fuso-token/src/lib.rs.
pub mod Types
pub mod Ledger
pub mod Sound
pub mod Decimals
pub mod Accounts
pub mod Queries
pub mod Issuance
pub mod Calls
pub mod History
pub mod Samples
mod Tests
