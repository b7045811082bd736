-- ===== src/Bridge/Effects.antt =====
-- What the calls of pallet-chainbridge leave alone.
use fusotao_protocol.Base.{ℕ, ◌≡◌, ◌≢◌, ◌⊎◌, inl, inr, Bool, true, false, some, Option-cases, arith}
use fusotao_protocol.Bridge.Types.{ProposalVotes, Runtime, State}
use fusotao_protocol.Bridge.Votes.{try_to_complete}
use fusotao_protocol.Bridge.Voting.{
  votes_or_new, commit_vote, finalize_execution, cancel_execution, try_resolve_proposal,
}
use fusotao_protocol.Bridge.Relayers.{IsFair, voted-IsFair}

-- The relayers, the threshold and the chains stay.
pub record IsVote {N : Type 0} (s s' : State N) : Type 0 where
  pub threshold_kept : s'.relayer_threshold ≡ s.relayer_threshold
  pub relayers_kept : s'.relayers ≡ s.relayers
  pub count_kept : s'.relayer_count ≡ s.relayer_count
  pub nonces_kept : s'.chain_nonces ≡ s.chain_nonces

-- No votes of a proposal count anybody twice.
abbrev pub AllFair : {N : Type 0} → State N → Type 0
AllFair s = (c n p : ℕ) (v : ProposalVotes) → s.votes c n p ≡ some v → IsFair v

module _ {N : Type 0} (rt : Runtime N) where
  pub commit_vote-IsVote :
      (who nonce src_id prop : ℕ) (in_favour : Bool) (s : State N)
      → IsVote s (commit_vote rt who nonce src_id prop in_favour s).1
  unfolding commit_vote votes_or_new
  commit_vote-IsVote who nonce src_id prop in_favour s =
      elim (Option-cases (s.votes src_id nonce prop)) [
        | inl missing ↦ ground arith
        | inr (v, found) ↦ ground arith
      ]

  pub commit_vote-rest :
      (who nonce src_id prop : ℕ) (in_favour : Bool) (s : State N)
      → (commit_vote rt who nonce src_id prop in_favour s).1.rest ≡ s.rest
  unfolding commit_vote votes_or_new
  commit_vote-rest who nonce src_id prop in_favour s =
      elim (Option-cases (s.votes src_id nonce prop)) [
        | inl missing ↦ ground arith
        | inr (v, found) ↦ ground arith
      ]

  -- A vote changes the votes of one proposal only.
  pub commit_vote-others :
      (who nonce src_id prop : ℕ) (in_favour : Bool) (c n p : ℕ) (s : State N)
      → (c ≢ src_id) ⊎ ((n ≢ nonce) ⊎ (p ≢ prop))
      → (commit_vote rt who nonce src_id prop in_favour s).1.votes c n p ≡ s.votes c n p
  unfolding commit_vote votes_or_new
  commit_vote-others who nonce src_id prop in_favour c n p s other =
      elim (Option-cases (s.votes src_id nonce prop)) [
        | inl missing ↦ ground arith
        | inr (v, found) ↦ ground arith
      ]

  pub commit_vote-AllFair :
      (who nonce src_id prop : ℕ) (in_favour : Bool) (s : State N)
      → AllFair s
      → AllFair (commit_vote rt who nonce src_id prop in_favour s).1
  unfolding commit_vote votes_or_new
  commit_vote-AllFair who nonce src_id prop true s fair c n p v h =
      elim (Option-cases (s.votes src_id nonce prop)) [
        | inl missing ↦ ground (arith, fair c n p v)
        | inr (w, found) ↦
            ground
              (arith, fair c n p v, voted-IsFair rt who true w (fair src_id nonce prop w found))
      ]
  commit_vote-AllFair who nonce src_id prop false s fair c n p v h =
      elim (Option-cases (s.votes src_id nonce prop)) [
        | inl missing ↦ ground (arith, fair c n p v)
        | inr (w, found) ↦
            ground
              (arith, fair c n p v, voted-IsFair rt who false w (fair src_id nonce prop w found))
      ]

  pub try_resolve_proposal-IsVote :
      (nonce src_id prop : ℕ) (s : State N)
      → IsVote s (try_resolve_proposal rt nonce src_id prop s).1
  unfolding try_resolve_proposal finalize_execution cancel_execution try_to_complete
  try_resolve_proposal-IsVote nonce src_id prop s =
      elim (Option-cases (s.votes src_id nonce prop)) [
        | inl missing ↦ ground arith
        | inr (v, found) ↦ ground arith
      ]

  pub try_resolve_proposal-others :
      (nonce src_id prop c n p : ℕ) (s : State N)
      → (c ≢ src_id) ⊎ ((n ≢ nonce) ⊎ (p ≢ prop))
      → (try_resolve_proposal rt nonce src_id prop s).1.votes c n p ≡ s.votes c n p
  unfolding try_resolve_proposal finalize_execution cancel_execution try_to_complete
  try_resolve_proposal-others nonce src_id prop c n p s other =
      elim (Option-cases (s.votes src_id nonce prop)) [
        | inl missing ↦ ground arith
        | inr (v, found) ↦ ground arith
      ]

  pub try_resolve_proposal-AllFair :
      (nonce src_id prop : ℕ) (s : State N)
      → AllFair s
      → AllFair (try_resolve_proposal rt nonce src_id prop s).1
  unfolding try_resolve_proposal finalize_execution cancel_execution try_to_complete
  try_resolve_proposal-AllFair nonce src_id prop s fair c n p v h =
      elim (Option-cases (s.votes src_id nonce prop)) [
        | inl missing ↦ ground (arith, fair c n p v)
        | inr (w, found) ↦ ground (arith, fair c n p v, fair src_id nonce prop w found)
      ]
