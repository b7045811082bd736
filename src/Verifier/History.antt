-- ===== src/Verifier/History.antt =====
-- Sequences of the calls of pallet-fuso-verifier and of blocks.
-- Source: pallet-fuso-verifier/src/lib.rs, `Hooks` and `#[pallet::call]`.
pub mod Holds
pub mod Balance
pub mod Evicted
mod Tests
use fusotao_protocol.Base.{ℕ, List, [], ◌∷◌}
use fusotao_protocol.Token.Types.{Origin}
use fusotao_protocol.Verifier.State.{State, Config, Proof}
use fusotao_protocol.Verifier.Seasons.{on_initialize}
use fusotao_protocol.Verifier.Stakes.{stake, unstake, claim_shares}
use fusotao_protocol.Verifier.Hosting.{call_authorize, call_revoke, call_revoke_with_callback}
use fusotao_protocol.Verifier.Registry.{
  register, evict, launch, dominator_set_pubkey, dominator_set_rpc_endpoint,
  dominator_set_beneficiary, register_broker, broker_set_rpc_endpoint,
}
use fusotao_protocol.Verifier.Batch.{verify, verify_compress}

pub data Call : Type 0 where
  registers : Origin → List ℕ → Call
  evicts launches : Origin → ℕ → Call
  sets_pubkey sets_rpc_endpoint : Origin → List ℕ → Call
  sets_beneficiary : Origin → ℕ → List ℕ → Call
  registers_broker : Origin → List ℕ → ℕ → Call
  sets_broker_rpc_endpoint : Origin → List ℕ → Call
  verifies_compressed : Origin → List ℕ → Call
  verifies : Origin → List Proof → Call
  stakes unstakes : Origin → ℕ → ℕ → Call
  claims : Origin → ℕ → Call
  authorizes revokes : Origin → ℕ → ℕ → ℕ → Call
  revokes_with_callback : Origin → ℕ → ℕ → ℕ → ℕ → Call
  begins_block : ℕ → Call

module _ {N : Type 0} (cf : Config N) where
  unfoldable pub step : Call → State N → State N
  step (registers origin name) s = (register cf origin name s).1
  step (evicts origin id) s = (evict cf origin id s).1
  step (launches origin id) s = (launch cf origin id s).1
  step (sets_pubkey origin key) s = (dominator_set_pubkey cf origin key s).1
  step (sets_rpc_endpoint origin url) s = (dominator_set_rpc_endpoint cf origin url s).1
  step (sets_beneficiary origin new signature) s =
      (dominator_set_beneficiary cf origin new signature s).1
  step (registers_broker origin url beneficiary) s = (register_broker cf origin url beneficiary s).1
  step (sets_broker_rpc_endpoint origin url) s = (broker_set_rpc_endpoint cf origin url s).1
  step (verifies_compressed origin bytes) s = (verify_compress cf origin bytes s).1
  step (verifies origin proofs) s = (verify cf origin proofs s).1
  step (stakes origin id amount) s = (stake cf origin id amount s).1
  step (unstakes origin id amount) s = (unstake cf origin id amount s).1
  step (claims origin id) s = (claim_shares cf origin id s).1
  step (authorizes origin id token amount) s = (call_authorize cf origin id token amount s).1
  step (revokes origin id token amount) s = (call_revoke cf origin id token amount s).1
  step (revokes_with_callback origin id token amount callback) s =
      (call_revoke_with_callback cf origin id token amount callback s).1
  step (begins_block number) s = (on_initialize cf number (record s { now = number })).1

  unfoldable pub run : List Call → State N → State N
  run [] s = s
  run (call ∷ calls) s = run calls (step call s)
