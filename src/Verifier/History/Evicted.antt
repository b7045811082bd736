-- ===== src/Verifier/History/Evicted.antt =====
-- Eviction is final.
use fusotao_protocol.Base.{ℕ, ◌≡◌, true, List, inl, inr, arith}
use fusotao_protocol.Verifier.State.{State, Config, Proof}
use fusotao_protocol.Verifier.Stakes.Evicted.{
  IsEvicted, store-IsEvicted, same-IsEvicted, stake-IsEvicted, unstake-IsEvicted,
  claim_shares-KeepsDominators,
}
use fusotao_protocol.Verifier.Stakes.{claim_shares}
use fusotao_protocol.Verifier.Registry.Evicted.{
  register-IsEvicted, evict-IsEvicted, launch-IsEvicted,
}
use fusotao_protocol.Verifier.Commands.{step_forward}
use fusotao_protocol.Verifier.Commands.Laws.{step_forward-effect}
use fusotao_protocol.Verifier.History.{Call, run}
use fusotao_protocol.Verifier.History.Holds.{run-holds}

module _ {N : Type 0} (cf : Config N) (checks : cf.runtime.overflow_checks ≡ true) (k : ℕ)
    (callback : (cb user : ℕ) (s : State N)
      → IsEvicted k s
      → IsEvicted k (cf.dispatch cb user s)) where
  step_forward-IsEvicted :
      (id : ℕ) (proof : Proof) (now : ℕ) (s : State N)
      → IsEvicted k s
      → IsEvicted k (step_forward cf id proof now s).1
  step_forward-IsEvicted id proof now s h = elim (step_forward-effect cf id proof now s) [
    | inl (e, same) ↦ rw same h
    | inr (d, e, stored, stakings) ↦
        store-IsEvicted k id d
          (record d { merkle_root = proof.root; sequence = (proof.event_id, now) }) s
          (step_forward cf id proof now s).1 e stored (ground arith) h
  ]

  -- In a build with overflow checks, a dominator that was evicted stays evicted through every
  -- sequence of calls and blocks, if callbacks keep it so.
  pub run-IsEvicted :
      (calls : List Call) (s : State N) → IsEvicted k s → IsEvicted k (run cf calls s)
  run-IsEvicted calls s h =
      run-holds cf (IsEvicted k) (λ s s' kept h. same-IsEvicted k s s' kept.0 h) callback
        step_forward-IsEvicted (register-IsEvicted cf k) (evict-IsEvicted cf k)
        (launch-IsEvicted cf k) (stake-IsEvicted cf checks k) (unstake-IsEvicted cf checks k)
        (λ origin id s h.
          same-IsEvicted k s (claim_shares cf origin id s).1
            (claim_shares-KeepsDominators cf origin id s) h)
        calls s h
