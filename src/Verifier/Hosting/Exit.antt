-- ===== src/Verifier/Hosting/Exit.antt =====
-- The way out of a dominator that was evicted.
use fusotao_protocol.Base.{ℕ, ◌+◌, ◌≤◌, ◌≡◌, refl, Option, none, some, arith}
use fusotao_protocol.Base.Result.{ok}
use fusotao_protocol.Base.Action.{◌>>◌}
use fusotao_protocol.Base.Runs.{>>=-ok}
use fusotao_protocol.Base.Assoc.{find}
use fusotao_protocol.Verifier.Accounts.{reserve_for_authorizing, has_authorized_morethan}
use fusotao_protocol.Verifier.State.{
  State, Config, Dominator, dominator_evicted, reserve_for_authorizing_stash,
}
use fusotao_protocol.Verifier.Reserving.{unreserve}
use fusotao_protocol.Verifier.Reserving.Laws.{unreserve-subtracts}
use fusotao_protocol.Verifier.Hosting.{put_receipt, return_stash, leave, revoke_from}

module _ {N : Type 0} (owner token dominator : ℕ) where
  return_stash-moves :
      (s s' : State N)
      → return_stash owner token dominator s ≡ (ok tt, s')
      → (let auth = reserve_for_authorizing in
          let stash = reserve_for_authorizing_stash in
          (s'.reserves auth owner token dominator
            ≡ s.reserves auth owner token dominator + s.reserves stash owner token dominator)
          × (s'.reserves stash owner token dominator ≡ 0))
  unfolding return_stash
  return_stash-moves s s' h = ground arith

module _ {N : Type 0} (cf : Config N) where
  leave-moves :
      (owner dex token amount : ℕ) (s s' : State N)
      → leave cf owner dex token amount s ≡ (ok tt, s')
      → (let auth = reserve_for_authorizing in
          let stash = reserve_for_authorizing_stash in
          (s'.reserves auth owner token dex + amount
            ≡ s.reserves auth owner token dex + s.reserves stash owner token dex)
          × (s'.reserves stash owner token dex ≡ 0)
          × (s'.receipts dex owner ≡ none))
  unfolding leave
  leave-moves owner dex token amount s s' h =
      let (u, t, e, h1) =
        >>=-ok (return_stash owner token dex)
          (λ _.
            unreserve cf reserve_for_authorizing owner token amount dex
            >> put_receipt dex owner none)
          s h in
      let (auth, stash) = return_stash-moves owner token dex s t e in
      let (v, t1, e1, h2) =
        >>=-ok (unreserve cf reserve_for_authorizing owner token amount dex)
          (λ _. put_receipt dex owner none) t h1 in
      let (falls, others) =
        unreserve-subtracts cf reserve_for_authorizing owner token amount dex t t1 e1 in
      let kept = others reserve_for_authorizing_stash refl in
      (ground (arith, h2), ground (arith, h2), ground (arith, h2))

  -- An accepted revocation from a dominator that was evicted asks for no more than is authorized,
  -- returns the stash to what is authorized, takes the amount from it at once, and leaves no
  -- receipt.
  pub revoke_from-evicted :
      (owner dex token amount : ℕ) (callback : Option ℕ) (d : Dominator) (s s' : State N)
      → find dex s.dominators ≡ some d
      → d.status ≡ dominator_evicted
      → revoke_from cf owner dex token amount callback s ≡ (ok tt, s')
      → (let auth = reserve_for_authorizing in
          let stash = reserve_for_authorizing_stash in
          (amount ≤ s.reserves auth owner token dex)
          × (s'.reserves auth owner token dex + amount
              ≡ s.reserves auth owner token dex + s.reserves stash owner token dex)
          × (s'.reserves stash owner token dex ≡ 0)
          × (s'.receipts dex owner ≡ none))
  unfolding revoke_from has_authorized_morethan
  revoke_from-evicted owner dex token amount callback d s s' found out h = ground (
    arith,
    found,
    out,
    leave-moves owner dex token amount s (leave cf owner dex token amount s).1,
  )
