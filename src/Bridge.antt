-- ===== src/Bridge.antt =====
-- pallet-chainbridge: relayers vote on calls that arrive from other chains, and transfers leave
-- under a nonce of the destination.
pub mod Types
pub mod Votes
pub mod Admin
pub mod Voting
pub mod Transfers
pub mod Calls
pub mod Resolution
pub mod Relayers
pub mod Effects
pub mod Ballots
pub mod Rejection
pub mod History
mod Tests
