-- ===== src/Verifier/History/Balance.antt =====
-- The stakes through all calls.
use fusotao_protocol.Base.{ℕ, ◌<◌, ◌≡◌, true, List, inl, inr, arith}
use fusotao_protocol.Verifier.State.{State, Config, Proof}
use fusotao_protocol.Verifier.Reserving.Laws.{KeepsStakes}
use fusotao_protocol.Verifier.Stakes.Balance.{
  IsBalanced, is_graded, store-IsBalanced, same-IsBalanced, stake-IsBalanced, unstake-IsBalanced,
}
use fusotao_protocol.Verifier.Stakes.Claims.{claim_shares-IsBalanced}
use fusotao_protocol.Verifier.Registry.Balance.{
  register-IsBalanced, evict-IsBalanced, launch-IsBalanced,
}
use fusotao_protocol.Verifier.Commands.{step_forward}
use fusotao_protocol.Verifier.Commands.Laws.{step_forward-effect}
use fusotao_protocol.Verifier.History.{Call, run}
use fusotao_protocol.Verifier.History.Holds.{run-holds}

module _ {N : Type 0} (cf : Config N) (checks : cf.runtime.overflow_checks ≡ true)
    (positive : 0 < cf.dominator_online_threshold)
    (callback : (cb user : ℕ) (s : State N)
      → IsBalanced cf s
      → IsBalanced cf (cf.dispatch cb user s)) where
  decided : (s s' : State N) → KeepsStakes s s' → IsBalanced cf s → IsBalanced cf s'
  decided s s' (dominators, stakings) h = same-IsBalanced cf s s' dominators stakings h

  step_forward-IsBalanced :
      (id : ℕ) (proof : Proof) (now : ℕ) (s : State N)
      → IsBalanced cf s
      → IsBalanced cf (step_forward cf id proof now s).1
  unfolding is_graded
  step_forward-IsBalanced id proof now s h = elim (step_forward-effect cf id proof now s) [
    | inl (e, same) ↦ rw same h
    | inr (d, e, stored, stakings) ↦
        store-IsBalanced cf id
          (record d { merkle_root = proof.root; sequence = (proof.event_id, now) }) s
          (step_forward cf id proof now s).1 stored stakings (ground (arith, e))
          (ground (arith, e, h.1 id)) h
  ]

  -- In a build with overflow checks and with a positive online threshold, every sequence of calls
  -- and blocks keeps the books of the stakes balanced, if callbacks do: no stake is stored twice,
  -- the stakes on each dominator add up to the total in its entry, and its status agrees with the
  -- total, none while registered, at least the threshold while active, and less while inactive.
  pub run-IsBalanced :
      (calls : List Call) (s : State N) → IsBalanced cf s → IsBalanced cf (run cf calls s)
  run-IsBalanced calls s h =
      run-holds cf (IsBalanced cf) decided callback step_forward-IsBalanced (register-IsBalanced cf)
        (evict-IsBalanced cf) (λ origin id s h. launch-IsBalanced cf origin id s positive h)
        (stake-IsBalanced cf checks) (unstake-IsBalanced cf checks) (claim_shares-IsBalanced cf)
        calls s h
