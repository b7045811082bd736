-- ===== src/Verifier/Batch/Tests.antt =====
-- A batch of two proofs: a deposit, and a rejection of one that is not open.
use fusotao_protocol.Base.{ℕ, ◌≡◌, refl, some, List, [], ◌∷◌}
use fusotao_protocol.Base.Result.{ok}
use fusotao_protocol.Base.Assoc.{find, store}
use fusotao_protocol.Token.Types.{signed}
use fusotao_protocol.Verifier.Leaf.{get, from_le_bytes, split_value, try_get_account}
use fusotao_protocol.Verifier.Moves.{verify_transfer_in}
use fusotao_protocol.Verifier.State.{State, Proof, reject_transfer_in, dominator_active}
use fusotao_protocol.Verifier.SampleState.{small, one_deposit, deposit_proof, dominator_of}
use fusotao_protocol.Verifier.Seasons.{current_season}
use fusotao_protocol.Verifier.Commands.{
  is_authorize_of, run_command, accept_transfer_in, accept_reject_transfer_in, step_forward,
  verify_and_update,
}
use fusotao_protocol.Verifier.Commands.Root.{StoresRoot}
use fusotao_protocol.Verifier.Batch.{count_trade, verify_proofs, set_prices, verify_batch, verify}
use fusotao_protocol.Verifier.Batch.Roots.{chain, verify-chain}

abbrev rejection_proof : Proof
rejection_proof = record deposit_proof { event_id = 2; cmd = reject_transfer_in; root = 9 ∷ [] }

abbrev two_proofs : List Proof
two_proofs = deposit_proof ∷ rejection_proof ∷ []

abbrev after_proofs : State ℕ
after_proofs = (verify small (signed 5) two_proofs one_deposit).1

one_found : find 5 one_deposit.dominators ≡ some (dominator_of 1_500 dominator_active)
unfolding find
one_found = refl

two_accepted : verify small (signed 5) two_proofs one_deposit ≡ (ok tt, after_proofs)
unfolding verify verify_batch verify_proofs count_trade set_prices verify_and_update run_command
    accept_transfer_in accept_reject_transfer_in step_forward is_authorize_of current_season
    verify_transfer_in get from_le_bytes split_value try_get_account find store
two_accepted = refl

verify-chain_example :
    (dominator_active ≡ dominator_active)
    × ((root : List ℕ) × (chain small (1 ∷ []) two_proofs ≡ some root)
        × StoresRoot 5 root after_proofs)
verify-chain_example =
    verify-chain small 5 (λ root cb user s h. h) two_proofs (dominator_of 1_500 dominator_active)
      one_deposit after_proofs one_found two_accepted
