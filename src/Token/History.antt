-- ===== src/Token/History.antt =====
-- Any sequence of calls of pallet-fuso-token keeps its storage sound.
use fusotao_protocol.Base.{ℕ, ◌+◌, ◌<◌, ◌≤◌, List, [], ◌∷◌, length, arith}
use fusotao_protocol.Support.{XToken}
use fusotao_protocol.Token.Types.{State, Runtime, Origin, BalanceStatus}
use fusotao_protocol.Token.Sound.{IsSound, IsTransfer-IsSound}
use fusotao_protocol.Token.Accounts.{transfer_token, reserve, unreserve, repatriate_reserved}
use fusotao_protocol.Token.Accounts.Transfer.{transfer_token-IsTransfer}
use fusotao_protocol.Token.Accounts.Reserve.{reserve-IsTransfer, unreserve-IsTransfer}
use fusotao_protocol.Token.Accounts.Repatriate.{repatriate_reserved-IsTransfer}
use fusotao_protocol.Token.Issuance.{do_mint, do_burn}
use fusotao_protocol.Token.Issuance.Minting.{do_mint-IsSound}
use fusotao_protocol.Token.Issuance.Burning.{do_burn-IsSound, do_mint-next, do_burn-next}
use fusotao_protocol.Token.Calls.{issue, mark_stable, transfer, associate_token}
use fusotao_protocol.Token.Calls.Effects.{
  issue-IsSound, mark_stable-IsSound, transfer-IsTransfer, associate_token-IsTransfer, issue-next,
  mark_stable-next,
}

-- The calls of users and of the root, and those that other pallets make.
pub data Call : Type 0 where
  issues : Origin → XToken → Call
  marks_stable : Origin → ℕ → Call
  transfers : Origin → ℕ → ℕ → ℕ → Call
  associates : Origin → ℕ → List ℕ → ℕ → Call
  mints burns : ℕ → ℕ → ℕ → Call
  moves : ℕ → ℕ → ℕ → ℕ → Call
  reserves unreserves : ℕ → ℕ → ℕ → Call
  repatriates : ℕ → ℕ → ℕ → ℕ → BalanceStatus → Call

module _ {N : Type 0} (rt : Runtime N) where
  -- The storage after a call, whatever the call ends in.
  pub step : Call → State N → State N
  step (issues origin info) s = (issue rt origin info s).1
  step (marks_stable origin id) s = (mark_stable rt origin id s).1
  step (transfers origin token target amount) s = (transfer rt origin token target amount s).1
  step (associates origin chain contract token) s =
      (associate_token rt origin chain contract token s).1
  step (mints token who amount) s = (do_mint rt token who amount s).1
  step (burns token who amount) s = (do_burn rt token who amount s).1
  step (moves origin token amount target) s = (transfer_token rt origin token amount target s).1
  step (reserves token who value) s = (reserve rt token who value s).1
  step (unreserves token who value) s = (unreserve rt token who value s).1
  step (repatriates token slashed beneficiary value status) s =
      (repatriate_reserved rt token slashed beneficiary value status s).1

  pub run : List Call → State N → State N
  unfolding step
  run [] s = s
  run (c ∷ cs) s = run cs (step c s)

  step-IsSound :
      (c : Call) (s : State N) → s.next_token_id + 1 < rt.token_ids → IsSound s → IsSound (step c s)
  unfolding step
  step-IsSound (issues origin info) s room v = issue-IsSound rt origin info s room v
  step-IsSound (marks_stable origin id) s room v = mark_stable-IsSound rt origin id s v
  step-IsSound (transfers origin token target amount) s room v =
      IsTransfer-IsSound (transfer-IsTransfer rt origin token target amount s v.keyed) v
  step-IsSound (associates origin chain contract token) s room v =
      IsTransfer-IsSound (associate_token-IsTransfer rt origin chain contract token s v.keyed) v
  step-IsSound (mints token who amount) s room v = do_mint-IsSound rt token who amount s v
  step-IsSound (burns token who amount) s room v = do_burn-IsSound rt token who amount s v
  step-IsSound (moves origin token amount target) s room v =
      IsTransfer-IsSound (transfer_token-IsTransfer rt origin token amount target s v.keyed) v
  step-IsSound (reserves token who value) s room v =
      IsTransfer-IsSound (reserve-IsTransfer rt token who value s v.keyed) v
  step-IsSound (unreserves token who value) s room v =
      IsTransfer-IsSound (unreserve-IsTransfer rt token who value s v.keyed) v
  step-IsSound (repatriates token slashed beneficiary value status) s room v =
      IsTransfer-IsSound
        (repatriate_reserved-IsTransfer rt token slashed beneficiary value status s v.keyed) v

  step-next :
      (c : Call) (s : State N)
      → s.next_token_id + 1 < rt.token_ids
      → IsSound s
      → (step c s).next_token_id ≤ s.next_token_id + 1
  unfolding step
  step-next (issues origin info) s room v = issue-next rt origin info s room
  step-next (marks_stable origin id) s room v = omega (arith, mark_stable-next rt origin id s)
  step-next (transfers origin token target amount) s room v =
      omega (arith, (transfer-IsTransfer rt origin token target amount s v.keyed).next_kept)
  step-next (associates origin chain contract token) s room v =
      omega (arith, (associate_token-IsTransfer rt origin chain contract token s v.keyed).next_kept)
  step-next (mints token who amount) s room v = omega (arith, do_mint-next rt token who amount s)
  step-next (burns token who amount) s room v = omega (arith, do_burn-next rt token who amount s)
  step-next (moves origin token amount target) s room v =
      omega (arith, (transfer_token-IsTransfer rt origin token amount target s v.keyed).next_kept)
  step-next (reserves token who value) s room v =
      omega (arith, (reserve-IsTransfer rt token who value s v.keyed).next_kept)
  step-next (unreserves token who value) s room v =
      omega (arith, (unreserve-IsTransfer rt token who value s v.keyed).next_kept)
  step-next (repatriates token slashed beneficiary value status) s room v = omega (
    arith,
    (repatriate_reserved-IsTransfer rt token slashed beneficiary value status s v.keyed).next_kept,
  )

  -- From a sound storage every sequence of calls, failing ones included, leads to a sound one, if
  -- it is shorter than the identifiers that are left: no account is stored twice, the accounts
  -- hold no more of a token than its issuance, which fits `u128`, the identifiers from
  -- `next_token_id` on are free, and no FND10 token is minted.
  pub run-IsSound :
      (cs : List Call) (s : State N)
      → s.next_token_id + length cs < rt.token_ids
      → IsSound s
      → IsSound (run cs s)
  unfolding run
  run-IsSound [] s room v = v
  run-IsSound (c ∷ cs) s room v =
      run-IsSound cs (step c s) (omega (arith, step-next c s (omega arith) v))
        (step-IsSound c s (omega arith) v)
