-- ===== src/Verifier/History/Holds.antt =====
-- What the calls that move stakes keep, all calls keep, if the stakes and the entries of the
-- dominators decide it.
use fusotao_protocol.Base.{ℕ, List, [], ◌∷◌}
use fusotao_protocol.Verifier.State.{State, Config, Proof}
use fusotao_protocol.Verifier.Reserving.Laws.{KeepsStakes}
use fusotao_protocol.Verifier.Seasons.Laws.{on_initialize-KeepsStakes}
use fusotao_protocol.Verifier.Hosting.Laws.{
  call_authorize-KeepsStakes, call_revoke-KeepsStakes, call_revoke_with_callback-KeepsStakes,
}
use fusotao_protocol.Token.Types.{Origin}
use fusotao_protocol.Verifier.Stakes.{stake, unstake, claim_shares}
use fusotao_protocol.Verifier.Registry.{register, evict, launch}
use fusotao_protocol.Verifier.Registry.Laws.{
  dominator_set_pubkey-KeepsStakes, dominator_set_rpc_endpoint-KeepsStakes,
  dominator_set_beneficiary-KeepsStakes, register_broker-KeepsStakes,
  broker_set_rpc_endpoint-KeepsStakes,
}
use fusotao_protocol.Verifier.Commands.{step_forward}
use fusotao_protocol.Verifier.Batch.Laws.{verify-holds, verify_compress-holds}
use fusotao_protocol.Verifier.History.{
  Call, registers, evicts, launches, sets_pubkey, sets_rpc_endpoint, sets_beneficiary,
  registers_broker, sets_broker_rpc_endpoint, verifies_compressed, verifies, stakes, unstakes,
  claims, authorizes, revokes, revokes_with_callback, begins_block, step, run,
}

module _ {N : Type 0} (cf : Config N) (P : State N → Type 0)
    (decided : (s s' : State N) → KeepsStakes s s' → P s → P s')
    (callback : (cb user : ℕ) (s : State N) → P s → P (cf.dispatch cb user s))
    (stepped : (id : ℕ) (proof : Proof) (now : ℕ) (s : State N)
      → P s
      → P (step_forward cf id proof now s).1)
    (registered : (origin : Origin) (name : List ℕ) (s : State N)
      → P s
      → P (register cf origin name s).1)
    (evicted : (origin : Origin) (id : ℕ) (s : State N) → P s → P (evict cf origin id s).1)
    (launched : (origin : Origin) (id : ℕ) (s : State N) → P s → P (launch cf origin id s).1)
    (staked : (origin : Origin) (id amount : ℕ) (s : State N)
      → P s
      → P (stake cf origin id amount s).1)
    (unstaked : (origin : Origin) (id amount : ℕ) (s : State N)
      → P s
      → P (unstake cf origin id amount s).1)
    (claimed : (origin : Origin) (id : ℕ) (s : State N)
      → P s
      → P (claim_shares cf origin id s).1) where
  step-holds : (call : Call) (s : State N) → P s → P (step cf call s)
  unfolding step
  step-holds (registers origin name) s h = registered origin name s h
  step-holds (evicts origin id) s h = evicted origin id s h
  step-holds (launches origin id) s h = launched origin id s h
  step-holds (sets_pubkey origin key) s h =
      decided s _ (dominator_set_pubkey-KeepsStakes cf origin key s) h
  step-holds (sets_rpc_endpoint origin url) s h =
      decided s _ (dominator_set_rpc_endpoint-KeepsStakes cf origin url s) h
  step-holds (sets_beneficiary origin new signature) s h =
      decided s _ (dominator_set_beneficiary-KeepsStakes cf origin new signature s) h
  step-holds (registers_broker origin url beneficiary) s h =
      decided s _ (register_broker-KeepsStakes cf origin url beneficiary s) h
  step-holds (sets_broker_rpc_endpoint origin url) s h =
      decided s _ (broker_set_rpc_endpoint-KeepsStakes cf origin url s) h
  step-holds (verifies_compressed origin bytes) s h =
      verify_compress-holds cf P decided callback stepped origin bytes s h
  step-holds (verifies origin proofs) s h =
      verify-holds cf P decided callback stepped origin proofs s h
  step-holds (stakes origin id amount) s h = staked origin id amount s h
  step-holds (unstakes origin id amount) s h = unstaked origin id amount s h
  step-holds (claims origin id) s h = claimed origin id s h
  step-holds (authorizes origin id token amount) s h =
      decided s _ (call_authorize-KeepsStakes cf origin id token amount s) h
  step-holds (revokes origin id token amount) s h =
      decided s _ (call_revoke-KeepsStakes cf origin id token amount s) h
  step-holds (revokes_with_callback origin id token amount cb) s h =
      decided s _ (call_revoke_with_callback-KeepsStakes cf origin id token amount cb s) h
  step-holds (begins_block number) s h =
      decided s _ (on_initialize-KeepsStakes cf number (record s { now = number })) h

  pub run-holds : (calls : List Call) (s : State N) → P s → P (run cf calls s)
  unfolding run
  run-holds [] s h = h
  run-holds (call ∷ calls) s h = run-holds calls (step cf call s) (step-holds call s h)
