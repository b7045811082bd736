-- ===== src/Bridge/Resolution.antt =====
-- When a proposal is resolved, and that it is executed only then.
use fusotao_protocol.Base.{
  ℕ, ◌≤◌, ◌<◌, ◌≡◌, ◌⊎◌, inl, inr, Bool, true, false, none, some, length, Bool-cases, Option-cases,
  arith, leb,
}
use fusotao_protocol.Base.Result.{err}
use fusotao_protocol.Bridge.Types.{
  approved, ProposalVotes, proposal_already_complete, Runtime, State,
}
use fusotao_protocol.Bridge.Votes.{try_to_complete, is_complete, is_expired}
use fusotao_protocol.Bridge.Voting.{
  votes_or_new, commit_vote, try_resolve_proposal, finalize_execution, cancel_execution,
}

module _ {N : Type 0} (rt : Runtime N) where
  -- An execution of the proposal in a step from `s` to `s'`: its votes were open and are approved,
  -- by as many as the threshold asks for, and the rest of the chain is what the call leaves.
  pub record IsExecuted (src_id nonce prop : ℕ) (v : ProposalVotes) (s s' : State N) : Type 0 where
    pub undecided : is_complete v ≡ false
    pub enough : s.relayer_threshold ≤ length v.votes_for
    pub decided : s'.votes src_id nonce prop ≡ some (record v { status = approved })
    pub executed : s'.rest ≡ (rt.dispatch prop s.rest).1

  -- An open proposal that has enough votes is executed.
  resolve_enough :
      (nonce src_id prop : ℕ) (v : ProposalVotes) (s : State N)
      → s.votes src_id nonce prop ≡ some v
      → is_complete v ≡ false
      → is_expired v s.now ≡ false
      → s.relayer_threshold ≤ length v.votes_for
      → IsExecuted src_id nonce prop v s (try_resolve_proposal rt nonce src_id prop s).1
  unfolding try_resolve_proposal finalize_execution try_to_complete
  resolve_enough nonce src_id prop v s found active alive enough = record {
    undecided = active;
    enough = enough;
    decided = ground arith;
    executed = ground arith;
  }

  -- Any other one is not.
  resolve_short :
      (nonce src_id prop : ℕ) (v : ProposalVotes) (s : State N)
      → s.votes src_id nonce prop ≡ some v
      → length v.votes_for < s.relayer_threshold
      → (try_resolve_proposal rt nonce src_id prop s).1.rest ≡ s.rest
  unfolding try_resolve_proposal finalize_execution cancel_execution try_to_complete
  resolve_short nonce src_id prop v s found short = ground arith

  resolve_closed :
      (nonce src_id prop : ℕ) (v : ProposalVotes) (s : State N)
      → s.votes src_id nonce prop ≡ some v
      → (is_complete v ≡ true) ⊎ (is_expired v s.now ≡ true)
      → (try_resolve_proposal rt nonce src_id prop s).1.rest ≡ s.rest
  unfolding try_resolve_proposal
  resolve_closed nonce src_id prop v s found (inl done) = ground arith
  resolve_closed nonce src_id prop v s found (inr expired) = ground arith

  resolve_missing :
      (nonce src_id prop : ℕ) (s : State N)
      → s.votes src_id nonce prop ≡ none
      → (try_resolve_proposal rt nonce src_id prop s).1.rest ≡ s.rest
  unfolding try_resolve_proposal
  resolve_missing nonce src_id prop s missing = ground arith

  pub try_resolve_proposal-executes :
      (nonce src_id prop : ℕ) (s : State N)
      → let s' = (try_resolve_proposal rt nonce src_id prop s).1 in
        (s'.rest ≡ s.rest)
        ⊎ ((v : ProposalVotes) × (s.votes src_id nonce prop ≡ some v)
            × IsExecuted src_id nonce prop v s s')
  try_resolve_proposal-executes nonce src_id prop s =
      elim (Option-cases (s.votes src_id nonce prop)) [
        | inl missing ↦ inl (resolve_missing nonce src_id prop s missing)
        | inr (v, found) ↦ elim (Bool-cases (is_complete v)) [
          | inl done ↦ inl (resolve_closed nonce src_id prop v s found (inl done))
          | inr active ↦ elim (Bool-cases (is_expired v s.now)) [
            | inl expired ↦ inl (resolve_closed nonce src_id prop v s found (inr expired))
            | inr alive ↦ elim (Bool-cases (leb s.relayer_threshold (length v.votes_for))) [
              | inr short ↦ inl (resolve_short nonce src_id prop v s found (ground arith))
              | inl enough ↦
                  inr (
                    v,
                    found,
                    resolve_enough nonce src_id prop v s found active alive (ground arith),
                  )
            ]
          ]
        ]
      ]

  pub try_resolve_proposal-final :
      (nonce src_id prop : ℕ) (v : ProposalVotes) (s : State N)
      → s.votes src_id nonce prop ≡ some v
      → is_complete v ≡ true
      → try_resolve_proposal rt nonce src_id prop s ≡ (err proposal_already_complete, s)
  unfolding try_resolve_proposal
  try_resolve_proposal-final nonce src_id prop v s found done = ground arith

  pub commit_vote-final :
      (who nonce src_id prop : ℕ) (in_favour : Bool) (v : ProposalVotes) (s : State N)
      → s.votes src_id nonce prop ≡ some v
      → is_complete v ≡ true
      → commit_vote rt who nonce src_id prop in_favour s ≡ (err proposal_already_complete, s)
  unfolding commit_vote votes_or_new
  commit_vote-final who nonce src_id prop in_favour v s found done = ground arith
