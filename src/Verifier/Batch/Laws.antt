-- ===== src/Verifier/Batch/Laws.antt =====
-- What a batch of proofs keeps.
use fusotao_protocol.Base.{ℕ, ◌≡◌, List, [], ◌∷◌, arith}
use fusotao_protocol.Base.Action.{lift}
use fusotao_protocol.Base.Runs.{bind_result-holds}
use fusotao_protocol.Token.Types.{Origin, root, unsigned, signed}
use fusotao_protocol.Verifier.State.{State, Config, Dominator, Proof}
use fusotao_protocol.Verifier.Reserving.Laws.{KeepsStakes}
use fusotao_protocol.Verifier.Commands.{step_forward, verify_and_update}
use fusotao_protocol.Verifier.Commands.Laws.{verify_and_update-holds}
use fusotao_protocol.Verifier.Batch.{
  Increments, count_trade, verify_proofs, set_prices, verify_batch, active_dominator, unpack,
  verify, verify_compress,
}

module _ {N : Type 0} (cf : Config N) where
  pub set_prices-KeepsStakes :
      (now : ℕ) (incr : Increments) (s : State N) → KeepsStakes s (set_prices cf now incr s).1
  unfolding set_prices
  set_prices-KeepsStakes now [] s = ground arith
  set_prices-KeepsStakes now (entry ∷ incr) s = grind (arith, set_prices-KeepsStakes now incr)

  module _ (P : State N → Type 0) (decided : (s s' : State N) → KeepsStakes s s' → P s → P s')
      (callback : (cb user : ℕ) (s : State N) → P s → P (cf.dispatch cb user s))
      (stepped : (id : ℕ) (proof : Proof) (now : ℕ) (s : State N)
        → P s
        → P (step_forward cf id proof now s).1) where
    verify_proofs-holds :
        (id start : ℕ) (known_root : List ℕ) (incr : Increments) (proofs : List Proof) (s : State N)
        → P s
        → P (verify_proofs cf id start known_root incr proofs s).1
    unfolding verify_proofs
    verify_proofs-holds id start known_root incr [] s h = h
    verify_proofs-holds id start known_root incr (proof ∷ proofs) s h =
        bind_result-holds P _ (verify_and_update cf id known_root start proof s)
          (verify_and_update-holds cf id P decided callback (stepped id) known_root start proof s h)
          λ trade t ht.
            bind_result-holds P _ (lift (count_trade cf id trade incr) t) ht
              λ incr' t' ht'. verify_proofs-holds id start trade.root incr' proofs t' ht'

    verify_batch-holds :
        (id : ℕ) (d : Dominator) (proofs : List Proof) (s : State N)
        → P s
        → P (verify_batch cf id d proofs s).1
    unfolding verify_batch
    verify_batch-holds id d proofs s h =
        bind_result-holds P _ (verify_proofs cf id d.start_from d.merkle_root [] proofs s)
          (verify_proofs-holds id d.start_from d.merkle_root [] proofs s h)
          λ done t ht. decided t _ (set_prices-KeepsStakes t.now done.1 t) ht

    active_dominator-same : (id : ℕ) (s : State N) → (active_dominator cf id s).1 ≡ s
    active_dominator-same id s = ground arith

    pub verify-holds :
        (origin : Origin) (proofs : List Proof) (s : State N)
        → P s
        → P (verify cf origin proofs s).1
    unfolding verify
    verify-holds root proofs s h = h
    verify-holds unsigned proofs s h = h
    verify-holds (signed id) proofs s h =
        bind_result-holds P _ (active_dominator cf id s) (rw (active_dominator-same id s) h)
          λ d t ht. verify_batch-holds id d proofs t ht

    pub verify_compress-holds :
        (origin : Origin) (compressed : List ℕ) (s : State N)
        → P s
        → P (verify_compress cf origin compressed s).1
    unfolding verify_compress
    verify_compress-holds root compressed s h = h
    verify_compress-holds unsigned compressed s h = h
    verify_compress-holds (signed id) compressed s h =
        bind_result-holds P _ (active_dominator cf id s) (rw (active_dominator-same id s) h)
          λ d t ht.
            bind_result-holds P _ (lift (unpack cf compressed) t) ht
              λ proofs t1 h1. verify_batch-holds id d proofs t1 h1
