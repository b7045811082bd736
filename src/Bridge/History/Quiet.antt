-- ===== src/Bridge/History/Quiet.antt =====
-- The calls of pallet-chainbridge that neither vote nor resolve.
use fusotao_protocol.Base.{ℕ, ◌≡◌, inl, inr, List, bytes_eq, Bool-cases, arith}
use fusotao_protocol.Token.Types.{Origin}
use fusotao_protocol.Bridge.Types.{Runtime, State}
use fusotao_protocol.Bridge.Admin.{
  set_relayer_threshold, register_resource, unregister_resource, whitelist, register_relayer,
  unregister_relayer,
}
use fusotao_protocol.Bridge.Transfers.{
  bump_nonce, transfer_fungible, transfer_nonfungible, transfer_generic,
}
use fusotao_protocol.Bridge.Calls.{
  set_threshold, check_resource, set_resource, remove_resource, whitelist_chain, add_relayer,
  remove_relayer,
}
use fusotao_protocol.Bridge.History.{
  AdminCall, threshold, resource, no_resource, chain, relayer, no_relayer, TransferCall, fungible,
  nonfungible, generic, administer, send,
}

module _ {N : Type 0} (rt : Runtime N) where
  -- The votes and the rest of the chain stay.
  abbrev pub IsQuiet : State N → State N → Type 0
  IsQuiet s s' = (s'.votes ≡ s.votes) × (s'.rest ≡ s.rest)

  -- The check of a resource only reads.
  pub check_resource-kept : (id : List ℕ) (s : State N) → (check_resource rt id s).1 ≡ s
  unfolding check_resource
  check_resource-kept id s = elim (Bool-cases (bytes_eq id rt.native_resource_id)) [
    | inl native ↦ ground arith
    | inr foreign ↦ ground arith
  ]

  pub administer-IsQuiet :
      (origin : Origin) (a : AdminCall) (s : State N) → IsQuiet s (administer rt origin a s).1
  unfolding administer set_threshold set_resource remove_resource whitelist_chain add_relayer
      remove_relayer set_relayer_threshold register_resource unregister_resource whitelist
      register_relayer unregister_relayer
  administer-IsQuiet origin (threshold n) s = ground arith
  administer-IsQuiet origin (resource id method) s = ground (arith, check_resource-kept id s)
  administer-IsQuiet origin (no_resource id) s = ground arith
  administer-IsQuiet origin (chain id) s = ground arith
  administer-IsQuiet origin (relayer who) s = ground arith
  administer-IsQuiet origin (no_relayer who) s = ground arith

  pub send-IsQuiet : (t : TransferCall) (s : State N) → IsQuiet s (send rt t s).1
  unfolding send transfer_fungible transfer_nonfungible transfer_generic bump_nonce
  send-IsQuiet (fungible dest_id resource_id to amount) s = ground arith
  send-IsQuiet (nonfungible dest_id resource_id token_id to metadata) s = ground arith
  send-IsQuiet (generic dest_id resource_id metadata) s = ground arith
