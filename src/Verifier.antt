-- ===== src/Verifier.antt =====
-- pallet-fuso-verifier: the checks of the off-chain matchers' proofs.
-- Source: pallet-fuso-verifier/src/lib.rs.
pub mod Types
pub mod Leaf
pub mod Accounts
pub mod Samples
pub mod Sums
pub mod AskBook
pub mod Ask
pub mod BidBook
pub mod Bid
pub mod Moves
pub mod Cancel
pub mod State
pub mod SampleState
pub mod Reserving
pub mod Seasons
pub mod Stakes
pub mod Hosting
pub mod Registry
pub mod Commands
pub mod Batch
pub mod History
mod Tests
