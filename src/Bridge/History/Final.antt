-- ===== src/Bridge/History/Final.antt =====
-- A proposal is executed with enough votes only, and once it is decided it stays decided.
use fusotao_protocol.Base.{
  ℕ, ◌≡◌, ◌⊎◌, inl, inr, refl, ◌∙◌, ap, Bool, true, false, some, List, [], ◌∷◌, ◌++◌, ◌&&◌,
  Bool-cases, arith,
}
use fusotao_protocol.Token.Types.{Origin, root, unsigned, signed}
use fusotao_protocol.Bridge.Types.{ProposalVotes, proposal_vote, Runtime, State}
use fusotao_protocol.Bridge.Votes.{is_complete}
use fusotao_protocol.Bridge.Admin.{is_relayer, chain_whitelisted, resource_exists}
use fusotao_protocol.Bridge.Voting.{try_resolve_proposal, vote_for, vote_against}
use fusotao_protocol.Bridge.Calls.{acknowledge_proposal, reject_proposal, eval_vote_state}
use fusotao_protocol.Bridge.History.{
  BridgeCall, administers, acknowledges, rejects, evaluates, transfers, blocks, step, run,
}
use fusotao_protocol.Bridge.Ballots.{
  Executes, after_vote, vote-Executes, resolve-Executes, vote-decided, resolve-decided,
}
use fusotao_protocol.Bridge.History.Quiet.{administer-IsQuiet, send-IsQuiet}

module _ {N : Type 0} (rt : Runtime N) where
  -- Whether the three tests before a vote pass.
  abbrev may_vote : ℕ → ℕ → List ℕ → State N → Bool
  may_vote who src_id r_id s =
      is_relayer who s && (chain_whitelisted src_id s && resource_exists r_id s)

  -- The storage with the event that precedes a vote in favour.
  abbrev pub noted : ℕ → List ℕ → ℕ → State N → State N
  noted src_id evm_hash nonce s = record s {
    events = s.events ++ proposal_vote src_id evm_hash nonce ∷ [];
  }

  pub acknowledges-vote :
      (origin : Origin) (nonce src_id : ℕ) (r_id evm_hash : List ℕ) (call : ℕ) (s : State N)
      → let s' = (acknowledge_proposal rt origin nonce src_id r_id evm_hash call s).1 in
        (s' ≡ s)
        ⊎ ((who : ℕ) × (s'
              ≡ after_vote rt who nonce src_id call true (noted src_id evm_hash nonce s)))
  unfolding acknowledge_proposal vote_for
  acknowledges-vote (signed who) nonce src_id r_id evm_hash call s =
      elim (Bool-cases (may_vote who src_id r_id s)) [
        | inl passes ↦ inr (who, ground arith)
        | inr refused ↦ inl (ground arith)
      ]
  acknowledges-vote root nonce src_id r_id evm_hash call s = inl refl
  acknowledges-vote unsigned nonce src_id r_id evm_hash call s = inl refl

  pub rejects-vote :
      (origin : Origin) (nonce src_id : ℕ) (r_id : List ℕ) (call : ℕ) (s : State N)
      → let s' = (reject_proposal rt origin nonce src_id r_id call s).1 in
        (s' ≡ s) ⊎ ((who : ℕ) × (s' ≡ after_vote rt who nonce src_id call false s))
  unfolding reject_proposal vote_against
  rejects-vote (signed who) nonce src_id r_id call s =
      elim (Bool-cases (may_vote who src_id r_id s)) [
        | inl passes ↦ inr (who, ground arith)
        | inr refused ↦ inl (ground arith)
      ]
  rejects-vote root nonce src_id r_id call s = inl refl
  rejects-vote unsigned nonce src_id r_id call s = inl refl

  pub evaluates-resolve :
      (origin : Origin) (nonce src_id prop : ℕ) (s : State N)
      → let s' = (eval_vote_state rt origin nonce src_id prop s).1 in
        (s' ≡ s) ⊎ (s' ≡ (try_resolve_proposal rt nonce src_id prop s).1)
  unfolding eval_vote_state
  evaluates-resolve (signed who) nonce src_id prop s = inr refl
  evaluates-resolve root nonce src_id prop s = inl refl
  evaluates-resolve unsigned nonce src_id prop s = inl refl

  -- Whatever call is made of the bridge, by whomever, either the rest of the chain stays as it is,
  -- or one proposal is executed on it: a proposal that was not decided before and is approved
  -- after, by as many votes as the threshold asks for.
  pub step-Executes : (c : BridgeCall) (s : State N) → Executes rt s (step rt c s)
  unfolding step
  step-Executes (administers origin a) s = inl (administer-IsQuiet rt origin a s).1
  step-Executes (transfers t) s = inl (send-IsQuiet rt t s).1
  step-Executes (blocks n) s = inl refl
  step-Executes (acknowledges origin nonce src_id r_id evm_hash call) s =
      elim (acknowledges-vote origin nonce src_id r_id evm_hash call s) [
        | inl same ↦ inl (ap (λ x. x.rest) same)
        | inr (who, e) ↦
            rw e (vote-Executes rt who nonce src_id call true (noted src_id evm_hash nonce s))
      ]
  step-Executes (rejects origin nonce src_id r_id call) s =
      elim (rejects-vote origin nonce src_id r_id call s) [
        | inl same ↦ inl (ap (λ x. x.rest) same)
        | inr (who, e) ↦ rw e (vote-Executes rt who nonce src_id call false s)
      ]
  step-Executes (evaluates origin nonce src_id call) s =
      elim (evaluates-resolve origin nonce src_id call s) [
        | inl same ↦ inl (ap (λ x. x.rest) same)
        | inr e ↦ rw e (resolve-Executes rt nonce src_id call s)
      ]

  -- A decided proposal stays as it is.
  step-decided :
      (c : BridgeCall) (src_id nonce prop : ℕ) (v : ProposalVotes) (s : State N)
      → s.votes src_id nonce prop ≡ some v
      → is_complete v ≡ true
      → (step rt c s).votes src_id nonce prop ≡ some v
  unfolding step
  step-decided (administers origin a) i j k v s found done =
      ap (λ f. f i j k) (administer-IsQuiet rt origin a s).0 ∙ found
  step-decided (transfers t) i j k v s found done =
      ap (λ f. f i j k) (send-IsQuiet rt t s).0 ∙ found
  step-decided (blocks n) i j k v s found done = found
  step-decided (acknowledges origin nonce src_id r_id evm_hash call) i j k v s found done =
      elim (acknowledges-vote origin nonce src_id r_id evm_hash call s) [
        | inl same ↦ ap (λ x. x.votes i j k) same ∙ found
        | inr (who, e) ↦
            ap (λ x. x.votes i j k) e
            ∙ vote-decided rt who nonce src_id call true (noted src_id evm_hash nonce s) i j k v
                found done
      ]
  step-decided (rejects origin nonce src_id r_id call) i j k v s found done =
      elim (rejects-vote origin nonce src_id r_id call s) [
        | inl same ↦ ap (λ x. x.votes i j k) same ∙ found
        | inr (who, e) ↦
            ap (λ x. x.votes i j k) e
            ∙ vote-decided rt who nonce src_id call false s i j k v found done
      ]
  step-decided (evaluates origin nonce src_id call) i j k v s found done =
      elim (evaluates-resolve origin nonce src_id call s) [
        | inl same ↦ ap (λ x. x.votes i j k) same ∙ found
        | inr e ↦
            ap (λ x. x.votes i j k) e ∙ resolve-decided rt nonce src_id call i j k v s found done
      ]

  -- The votes of a decided proposal stay as they are through every sequence of calls, transfers
  -- and blocks.
  pub run-decided :
      (cs : List BridgeCall) (src_id nonce prop : ℕ) (v : ProposalVotes) (s : State N)
      → s.votes src_id nonce prop ≡ some v
      → is_complete v ≡ true
      → (run rt cs s).votes src_id nonce prop ≡ some v
  unfolding run
  run-decided [] i j k v s found done = found
  run-decided (c ∷ cs) i j k v s found done =
      run-decided cs i j k v (step rt c s) (step-decided c i j k v s found done) done
