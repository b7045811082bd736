-- ===== src/Verifier/Hosting/Laws.antt =====
-- What hosting tokens keeps.
use fusotao_protocol.Base.{ℕ, ◌+◌, ◌≡◌, Option, some, arith}
use fusotao_protocol.Base.Result.{ok}
use fusotao_protocol.Token.Types.{Origin}
use fusotao_protocol.Verifier.State.{State, Config, authorize, reserve_for_authorizing_stash}
use fusotao_protocol.Verifier.Accounts.{reserve_for_authorizing}
use fusotao_protocol.Verifier.Reserving.Laws.{
  KeepsStakes, reserve-Keeps, unreserve-Keeps, reserve-adds,
}
use fusotao_protocol.Verifier.Hosting.{
  return_stash, leave, authorize_to, revoke_from, call_authorize, call_revoke,
  call_revoke_with_callback,
}

module _ {N : Type 0} (cf : Config N) where
  return_stash-KeepsStakes :
      (owner token dominator : ℕ) (s : State N)
      → KeepsStakes s (return_stash {N = N} owner token dominator s).1
  unfolding return_stash
  return_stash-KeepsStakes owner token dominator s = ground arith

  pub authorize_to-KeepsStakes :
      (owner dex token amount : ℕ) (s : State N)
      → KeepsStakes s (authorize_to cf owner dex token amount s).1
  unfolding authorize_to
  authorize_to-KeepsStakes owner dex token amount s = grind (arith, reserve-Keeps cf)

  leave-KeepsStakes :
      (owner dex token amount : ℕ) (s : State N)
      → KeepsStakes s (leave cf owner dex token amount s).1
  unfolding leave
  leave-KeepsStakes owner dex token amount s =
      grind (arith, unreserve-Keeps cf, return_stash-KeepsStakes)

  revoke_from-KeepsStakes :
      (owner dex token amount : ℕ) (callback : Option ℕ) (s : State N)
      → KeepsStakes s (revoke_from cf owner dex token amount callback s).1
  unfolding revoke_from
  revoke_from-KeepsStakes owner dex token amount callback s =
      ground (arith, leave-KeepsStakes owner dex token amount s)

  pub call_authorize-KeepsStakes :
      (origin : Origin) (target token amount : ℕ) (s : State N)
      → KeepsStakes s (call_authorize cf origin target token amount s).1
  unfolding call_authorize
  call_authorize-KeepsStakes origin target token amount s = grind (arith, authorize_to-KeepsStakes)

  pub call_revoke-KeepsStakes :
      (origin : Origin) (target token amount : ℕ) (s : State N)
      → KeepsStakes s (call_revoke cf origin target token amount s).1
  unfolding call_revoke
  call_revoke-KeepsStakes origin target token amount s = grind (arith, revoke_from-KeepsStakes)

  pub call_revoke_with_callback-KeepsStakes :
      (origin : Origin) (target token amount callback : ℕ) (s : State N)
      → KeepsStakes s (call_revoke_with_callback cf origin target token amount callback s).1
  unfolding call_revoke_with_callback
  call_revoke_with_callback-KeepsStakes origin target token amount callback s =
      grind (arith, revoke_from-KeepsStakes)

  -- An accepted authorization: the stash grows, and the receipt is open.
  pub authorize_to-stash :
      (owner dex token amount : ℕ) (s s' : State N)
      → authorize_to cf owner dex token amount s ≡ (ok tt, s')
      → (let stash = reserve_for_authorizing_stash in
          s'.reserves stash owner token dex ≡ s.reserves stash owner token dex + amount)
        × (s'.reserves reserve_for_authorizing owner token dex
            ≡ s.reserves reserve_for_authorizing owner token dex)
        × (s'.receipts dex owner ≡ some (authorize token amount s.now))
  unfolding authorize_to
  authorize_to-stash owner dex token amount s s' h =
      grind (arith, reserve-adds cf reserve_for_authorizing_stash owner token amount dex)
