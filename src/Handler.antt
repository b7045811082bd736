-- ===== src/Handler.antt =====
-- pallet-chainbridge-handler: tokens that cross the bridge.
-- Source: pallet-chainbridge-handler/src/lib.rs.
pub mod Types
pub mod Outgoing
pub mod Incoming
pub mod Tokens
mod Tests
