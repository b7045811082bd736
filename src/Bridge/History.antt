-- ===== src/Bridge/History.antt =====
-- Sequences of calls of pallet-chainbridge, of other pallets' transfers, and of blocks.
mod Quiet
pub mod Final
pub mod Sound
pub mod Replay
use fusotao_protocol.Base.{ℕ, ◌+◌, List, [], ◌∷◌, Bool}
use fusotao_protocol.Base.Action.{Action}
use fusotao_protocol.Token.Types.{Origin}
use fusotao_protocol.Bridge.Types.{Error, Runtime, State}
use fusotao_protocol.Bridge.Calls.{
  set_threshold, set_resource, remove_resource, whitelist_chain, add_relayer, remove_relayer,
  acknowledge_proposal, reject_proposal, eval_vote_state,
}
use fusotao_protocol.Bridge.Transfers.{transfer_fungible, transfer_nonfungible, transfer_generic}

-- The calls of the admin.
pub data AdminCall : Type 0 where
  threshold : ℕ → AdminCall
  resource : List ℕ → List ℕ → AdminCall
  no_resource : List ℕ → AdminCall
  chain relayer no_relayer : ℕ → AdminCall

-- The transfers that other pallets start.
pub data TransferCall : Type 0 where
  fungible : ℕ → List ℕ → List ℕ → ℕ → TransferCall
  nonfungible : ℕ → List ℕ → List ℕ → List ℕ → List ℕ → TransferCall
  generic : ℕ → List ℕ → List ℕ → TransferCall

-- `blocks n` is the start of the block that is `n` after the present one.
pub data BridgeCall : Type 0 where
  administers : Origin → AdminCall → BridgeCall
  acknowledges : Origin → ℕ → ℕ → List ℕ → List ℕ → ℕ → BridgeCall
  rejects : Origin → ℕ → ℕ → List ℕ → ℕ → BridgeCall
  evaluates : Origin → ℕ → ℕ → ℕ → BridgeCall
  transfers : TransferCall → BridgeCall
  blocks : ℕ → BridgeCall

module _ {N : Type 0} (rt : Runtime N) where
  pub administer : Origin → AdminCall → Action (State N) Error (Unit {0})
  administer origin (threshold n) = set_threshold rt origin n
  administer origin (resource id method) = set_resource rt origin id method
  administer origin (no_resource id) = remove_resource rt origin id
  administer origin (chain id) = whitelist_chain rt origin id
  administer origin (relayer who) = add_relayer rt origin who
  administer origin (no_relayer who) = remove_relayer rt origin who

  pub send : TransferCall → Action (State N) Error (Unit {0})
  send (fungible dest_id resource_id to amount) = transfer_fungible rt dest_id resource_id to amount
  send (nonfungible dest_id resource_id token_id to metadata) =
      transfer_nonfungible rt dest_id resource_id token_id to metadata
  send (generic dest_id resource_id metadata) = transfer_generic rt dest_id resource_id metadata

  -- The storage after a call, whatever the call ends in.
  unfoldable pub step : BridgeCall → State N → State N
  step (administers origin a) s = (administer origin a s).1
  step (acknowledges origin nonce src_id r_id evm_hash call) s =
      (acknowledge_proposal rt origin nonce src_id r_id evm_hash call s).1
  step (rejects origin nonce src_id r_id call) s =
      (reject_proposal rt origin nonce src_id r_id call s).1
  step (evaluates origin nonce src_id call) s = (eval_vote_state rt origin nonce src_id call s).1
  step (transfers t) s = (send t s).1
  step (blocks n) s = record s { now = s.now + n }

  unfoldable pub run : List BridgeCall → State N → State N
  run [] s = s
  run (c ∷ cs) s = run cs (step c s)
