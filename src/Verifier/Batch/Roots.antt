-- ===== src/Verifier/Batch/Roots.antt =====
-- A batch against its specification: a chain of Merkle proofs from the stored root to the new one.
use fusotao_protocol.Base.{
  ℕ, ◌≡◌, refl, Option, none, some, List, [], ◌∷◌, ◌&&◌, if◌then◌else◌, inl, inr, arith,
}
use fusotao_protocol.Base.Result.{ok, Result-cases}
use fusotao_protocol.Base.Action.{lift}
use fusotao_protocol.Base.Runs.{>>=-ok}
use fusotao_protocol.Base.Assoc.{find}
use fusotao_protocol.Token.Types.{signed}
use fusotao_protocol.Verifier.State.{State, Config, Dominator, Proof, dominator_active}
use fusotao_protocol.Verifier.Commands.{verify_and_update}
use fusotao_protocol.Verifier.Commands.Root.{
  is_proved, next_root, StoresRoot, verify_and_update-root,
}
use fusotao_protocol.Verifier.Batch.{
  Increments, count_trade, verify_proofs, set_prices, verify_batch, verify,
}
use fusotao_protocol.Verifier.Batch.Laws.{set_prices-KeepsStakes}

-- The root that a chain of proofs leads to, if each holds under the root before it and under its
-- own.
unfoldable pub chain : {N : Type 0} → Config N → List ℕ → List Proof → Option (List ℕ)
chain cf known [] = some known
chain cf known (proof ∷ proofs) =
    let rest = chain cf (next_root known proof) proofs in
    if is_proved cf proof known (λ leaf. leaf.old_v)
      && is_proved cf proof proof.root (λ leaf. leaf.new_v)
    then rest
    else none

module _ {N : Type 0} (cf : Config N) (id : ℕ)
    (callback : (root : List ℕ) (cb user : ℕ) (s : State N)
      → StoresRoot id root s
      → StoresRoot id root (cf.dispatch cb user s)) where
  verify_proofs-chain :
      (start : ℕ) (known : List ℕ) (incr : Increments) (proofs : List Proof) (s s' : State N)
      (done : List ℕ × Increments)
      → verify_proofs cf id start known incr proofs s ≡ (ok done, s')
      → StoresRoot id known s
      → (chain cf known proofs ≡ some done.0) × StoresRoot id done.0 s'
  unfolding verify_proofs chain
  verify_proofs-chain start known incr [] s s' done h (d, found, same) =
      (ground arith, (d, ground (arith, found), ground (arith, same)))
  verify_proofs-chain start known incr (proof ∷ proofs) s s' done h stored =
      let (trade, t, e, h1) = >>=-ok (verify_and_update cf id known start proof) _ s h in
      let (incr', t1, e1, h2) = >>=-ok (lift (count_trade cf id trade incr)) _ t h1 in
      let (old, new, root, (d, found, same)) =
        verify_and_update-root cf id callback known start proof s t trade e stored in
      let here : StoresRoot id trade.root t1 =
        (d, ground (arith, e1, found), ground (arith, root, same)) in
      let (chained, stored') =
        verify_proofs-chain start trade.root incr' proofs t1 s' done h2 here in
      let rest : chain cf (next_root known proof) proofs ≡ some done.0 = rw root at chained in
      (rw (old, new) rest, stored')

  set_prices-root :
      (root : List ℕ) (now : ℕ) (incr : Increments) (s : State N)
      → StoresRoot id root s
      → StoresRoot id root (set_prices cf now incr s).1
  set_prices-root root now incr s (d, found, same) =
      (d, rw (set_prices-KeepsStakes cf now incr s).0 found, same)

  -- A batch of proofs that is accepted from a dominator is a chain: the dominator is active, each
  -- Merkle proof holds of the old leaves under the root that the proofs before it left, from the
  -- stored one on, and of the new leaves under its own, and the root that the chain leads to is
  -- stored at the end, if callbacks keep the stored root.
  pub verify-chain :
      (proofs : List Proof) (d : Dominator) (s s' : State N)
      → find id s.dominators ≡ some d
      → verify cf (signed id) proofs s ≡ (ok tt, s')
      → (d.status ≡ dominator_active)
        × ((root : List ℕ) × (chain cf d.merkle_root proofs ≡ some root) × StoresRoot id root s')
  unfolding verify verify_batch
  verify-chain proofs d s s' found h =
      let r = verify_proofs cf id d.start_from d.merkle_root [] proofs s in
      elim (Result-cases r.0) [
        | inr failed ↦ absurd (let h' = h in let f = failed in ground (arith, found))
        | inl (done, e) ↦
            let (chained, stored) =
              verify_proofs-chain d.start_from d.merkle_root [] proofs s r.1 done
                (ground (arith, e)) (d, found, refl) in
            let (d', found', same) = set_prices-root done.0 r.1.now done.1 r.1 stored in
            (
              ground (arith, found, h),
              (done.0, chained, (d', ground (arith, found, h, e, found'), same)),
            )
      ]
