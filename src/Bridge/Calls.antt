-- ===== src/Bridge/Calls.antt =====
-- The dispatchable calls of pallet-chainbridge.
-- Source: pallet-chainbridge/src/lib.rs, `#[pallet::call]`.
use fusotao_protocol.Base.{ℕ, List, bytes_eq, if◌then◌else◌}
use fusotao_protocol.Base.Action.{Action, pure, gets, require, or_raise, lift, ◌>>=◌, ◌>>◌}
use fusotao_protocol.Support.ResourceId.{decode_resource_id}
use fusotao_protocol.Token.Types.{Origin}
use fusotao_protocol.Bridge.Types.{
  Error, must_be_relayer, chain_not_whitelisted, resource_does_not_exist,
  resource_id_not_map_to_token, proposal_vote, Runtime, State, deposit_event,
}
use fusotao_protocol.Bridge.Admin.{
  ensure_signed, ensure_admin, is_relayer, resource_exists, chain_whitelisted,
  set_relayer_threshold, register_resource, unregister_resource, whitelist, register_relayer,
  unregister_relayer,
}
use fusotao_protocol.Bridge.Voting.{vote_for, vote_against, try_resolve_proposal}

module _ {N : Type 0} (rt : Runtime N) where
  unfoldable pub set_threshold : Origin → ℕ → Action (State N) Error (Unit {0})
  set_threshold origin threshold = ensure_admin rt origin >> set_relayer_threshold rt threshold

  -- The contract that a resource identifier names has to be a known token.
  unfoldable pub check_resource : List ℕ → Action (State N) Error (Unit {0})
  check_resource id = if bytes_eq id rt.native_resource_id then pure tt else (do
    decoded ← lift (decode_resource_id id)
    token ← gets (λ s. rt.asset_id_by_name decoded.0 decoded.2 s.rest)
    asset ← or_raise token resource_id_not_map_to_token
    pure tt)

  unfoldable pub set_resource : Origin → List ℕ → List ℕ → Action (State N) Error (Unit {0})
  set_resource origin id method = do
    ensure_admin rt origin
    check_resource id
    register_resource rt id method

  unfoldable pub remove_resource : Origin → List ℕ → Action (State N) Error (Unit {0})
  remove_resource origin id = ensure_admin rt origin >> unregister_resource rt id

  unfoldable pub whitelist_chain : Origin → ℕ → Action (State N) Error (Unit {0})
  whitelist_chain origin id = ensure_admin rt origin >> whitelist rt id

  unfoldable pub add_relayer : Origin → ℕ → Action (State N) Error (Unit {0})
  add_relayer origin who = ensure_admin rt origin >> register_relayer rt who

  unfoldable pub remove_relayer : Origin → ℕ → Action (State N) Error (Unit {0})
  remove_relayer origin who = ensure_admin rt origin >> unregister_relayer rt who

  -- The three tests before a vote.
  abbrev pub ensure_may_vote : ℕ → ℕ → List ℕ → Action (State N) Error (Unit {0})
  ensure_may_vote who src_id r_id = do
    relayer ← gets (is_relayer who)
    require relayer must_be_relayer
    known ← gets (chain_whitelisted src_id)
    require known chain_not_whitelisted
    resource ← gets (resource_exists r_id)
    require resource resource_does_not_exist

  unfoldable pub acknowledge_proposal :
      Origin → ℕ → ℕ → List ℕ → List ℕ → ℕ → Action (State N) Error (Unit {0})
  acknowledge_proposal origin nonce src_id r_id evm_hash call = do
    who ← ensure_signed origin
    ensure_may_vote who src_id r_id
    deposit_event (proposal_vote src_id evm_hash nonce)
    vote_for rt who nonce src_id call

  unfoldable pub reject_proposal : Origin → ℕ → ℕ → List ℕ → ℕ → Action (State N) Error (Unit {0})
  reject_proposal origin nonce src_id r_id call = do
    who ← ensure_signed origin
    ensure_may_vote who src_id r_id
    vote_against rt who nonce src_id call

  unfoldable pub eval_vote_state : Origin → ℕ → ℕ → ℕ → Action (State N) Error (Unit {0})
  eval_vote_state origin nonce src_id prop = do
    who ← ensure_signed origin
    try_resolve_proposal rt nonce src_id prop
