-- ===== src/Bridge/Ballots.antt =====
-- A vote with the resolution that follows it: when it executes, and what it leaves decided.
use fusotao_protocol.Base.{
  ℕ, ◌≤◌, ◌≡◌, ◌⊎◌, inl, inr, ◌∙◌, ap, Bool, true, Option, none, some, length, ◌==◌, ◌&&◌, not,
  Bool-cases, Option-cases, arith,
}
use fusotao_protocol.Base.Result.{ok, Result-cases, Fails}
use fusotao_protocol.Base.Action.{◌>>◌}
use fusotao_protocol.Bridge.Types.{
  approved, ProposalVotes, proposal_already_complete, Runtime, State,
}
use fusotao_protocol.Bridge.Votes.{is_complete}
use fusotao_protocol.Bridge.Voting.{commit_vote, try_resolve_proposal}
use fusotao_protocol.Bridge.Resolution.{
  try_resolve_proposal-executes, try_resolve_proposal-final, commit_vote-final,
}
use fusotao_protocol.Bridge.Effects.{
  commit_vote-IsVote, commit_vote-rest, commit_vote-others, try_resolve_proposal-others,
}

module _ {N : Type 0} (rt : Runtime N) where
  -- Whether a proposal is not decided, if there are votes at all.
  abbrev pub is_open : Option ProposalVotes → Bool
  is_open none = true
  is_open (some v) = not (is_complete v)

  -- A step that executes the proposal: it was not decided before and is approved after, with as
  -- many votes as the threshold asks for, and the rest of the chain is what the call leaves.
  abbrev pub Execution : ℕ → ℕ → ℕ → ProposalVotes → State N → State N → Type 0
  Execution src_id nonce prop v s s' =
      (is_open (s.votes src_id nonce prop) ≡ true)
      × (s.relayer_threshold ≤ length v.votes_for)
      × (s'.votes src_id nonce prop ≡ some (record v { status = approved }))
      × (s'.rest ≡ (rt.dispatch prop s.rest).1)

  -- Either nothing is executed, or one proposal is.
  abbrev pub Executes : State N → State N → Type 0
  Executes s s' =
      (s'.rest ≡ s.rest)
      ⊎ ((src_id : ℕ) × (nonce : ℕ) × (prop : ℕ) × (v : ProposalVotes) × Execution src_id nonce prop
            v s s')

  pub resolve-Executes :
      (nonce src_id prop : ℕ) (s : State N)
      → Executes s (try_resolve_proposal rt nonce src_id prop s).1
  resolve-Executes nonce src_id prop s =
      elim (try_resolve_proposal-executes rt nonce src_id prop s) [
        | inl same ↦ inl same
        | inr (v, found, e) ↦ inr (
          src_id,
          nonce,
          prop,
          v,
          (ground (arith, found, e.undecided), e.enough, e.decided, e.executed),
        )
      ]

  module _ (who nonce src_id prop : ℕ) (in_favour : Bool) (s : State N) where
    -- The storage after a vote and its resolution.
    abbrev pub after_vote : State N
    after_vote =
        ((commit_vote rt who nonce src_id prop in_favour
            >> try_resolve_proposal rt nonce src_id prop)
          s).1

    vote-failed :
        Fails (commit_vote rt who nonce src_id prop in_favour s).0
        → after_vote ≡ (commit_vote rt who nonce src_id prop in_favour s).1
    vote-failed (inl (e, failed)) = ground arith
    vote-failed (inr failed) = ground arith

    vote-resolved :
        (commit_vote rt who nonce src_id prop in_favour s).0 ≡ ok tt
        → after_vote
          ≡ (try_resolve_proposal rt nonce src_id prop
              (commit_vote rt who nonce src_id prop in_favour s).1).1
    vote-resolved passed = ground arith

    pub vote-cases :
        (after_vote ≡ (commit_vote rt who nonce src_id prop in_favour s).1)
        ⊎ (after_vote
            ≡ (try_resolve_proposal rt nonce src_id prop
                (commit_vote rt who nonce src_id prop in_favour s).1).1)
    vote-cases = elim (Result-cases (commit_vote rt who nonce src_id prop in_favour s).0) [
      | inl (u, passed) ↦ inr (vote-resolved passed)
      | inr failed ↦ inl (vote-failed failed)
    ]

    -- A vote on a decided proposal is refused.
    vote-refused :
        (v : ProposalVotes)
        → s.votes src_id nonce prop ≡ some v
        → is_complete v ≡ true
        → after_vote ≡ s
    vote-refused v found done =
        let refused = commit_vote-final rt who nonce src_id prop in_favour v s found done in
        vote-failed (inl (proposal_already_complete, ap (λ x. x.0) refused)) ∙ ap (λ x. x.1) refused

    undecided_vote : is_open (s.votes src_id nonce prop) ≡ true → Executes s after_vote
    undecided_vote open_still =
        let voted = (commit_vote rt who nonce src_id prop in_favour s).1 in
        elim (Result-cases (commit_vote rt who nonce src_id prop in_favour s).0) [
          | inr failed ↦ inl (
              ap (λ x. x.rest) (vote-failed failed)
              ∙ commit_vote-rest rt who nonce src_id prop in_favour s)
          | inl (u, passed) ↦ elim (try_resolve_proposal-executes rt nonce src_id prop voted) [
            | inl same ↦ inl (
                ap (λ x. x.rest) (vote-resolved passed)
                ∙ same
                ∙ commit_vote-rest rt who nonce src_id prop in_favour s)
            | inr (v, found, e) ↦ inr (
              src_id,
              nonce,
              prop,
              v,
              (
                open_still,
                ground (
                  arith,
                  (commit_vote-IsVote rt who nonce src_id prop in_favour s).threshold_kept,
                  e.enough,
                ),
                ap (λ x. x.votes src_id nonce prop) (vote-resolved passed) ∙ e.decided,
                ap (λ x. x.rest) (vote-resolved passed)
                    ∙ e.executed
                    ∙ ap (λ n. (rt.dispatch prop n).1)
                        (commit_vote-rest rt who nonce src_id prop in_favour s),
              ),
            )
          ]
        ]

    pub vote-Executes : Executes s after_vote
    vote-Executes = elim (Option-cases (s.votes src_id nonce prop)) [
      | inl missing ↦ undecided_vote (ground arith)
      | inr (v, found) ↦ elim (Bool-cases (is_complete v)) [
        | inl done ↦ inl (ap (λ x. x.rest) (vote-refused v found done))
        | inr active ↦ undecided_vote (ground arith)
      ]
    ]

    -- The votes of a decided proposal stay, whichever proposal is voted on.
    pub vote-decided :
        (c n p : ℕ) (v : ProposalVotes)
        → s.votes c n p ≡ some v
        → is_complete v ≡ true
        → after_vote.votes c n p ≡ some v
    vote-decided c n p v found done =
        elim (Bool-cases ((c == src_id) && ((n == nonce) && (p == prop)))) [
          | inl same ↦ ap (λ x. x.votes c n p) (vote-refused v (ground (arith, found)) done) ∙ found
          | inr other ↦ elim (Result-cases (commit_vote rt who nonce src_id prop in_favour s).0) [
            | inr failed ↦
                ap (λ x. x.votes c n p) (vote-failed failed)
                ∙ commit_vote-others rt who nonce src_id prop in_favour c n p s (ground arith)
                ∙ found
            | inl (u, passed) ↦
                ap (λ x. x.votes c n p) (vote-resolved passed)
                ∙ try_resolve_proposal-others rt nonce src_id prop c n p
                    (commit_vote rt who nonce src_id prop in_favour s).1 (ground arith)
                ∙ commit_vote-others rt who nonce src_id prop in_favour c n p s (ground arith)
                ∙ found
          ]
        ]

  pub resolve-decided :
      (nonce src_id prop c n p : ℕ) (v : ProposalVotes) (s : State N)
      → s.votes c n p ≡ some v
      → is_complete v ≡ true
      → (try_resolve_proposal rt nonce src_id prop s).1.votes c n p ≡ some v
  resolve-decided nonce src_id prop c n p v s found done =
      elim (Bool-cases ((c == src_id) && ((n == nonce) && (p == prop)))) [
        | inl same ↦
            ap (λ x. x.1.votes c n p)
              (try_resolve_proposal-final rt nonce src_id prop v s (ground (arith, found)) done)
            ∙ found
        | inr other ↦
            try_resolve_proposal-others rt nonce src_id prop c n p s (ground arith) ∙ found
      ]
