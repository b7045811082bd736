-- ===== src/Bridge/Voting.antt =====
-- Votes on proposals and their resolution.
-- Source: pallet-chainbridge/src/lib.rs, "Proposal voting and execution methods".
use fusotao_protocol.Base.{ℕ, Bool, true, false, not, [], ◌∷◌, ◌++◌, none, some}
use fusotao_protocol.Base.Words.{add_in}
use fusotao_protocol.Base.Action.{Action, pure, raise, gets, require, lift, ◌>>=◌, ◌>>◌}
use fusotao_protocol.Bridge.Types.{
  ProposalStatus, initiated, approved, rejected, ProposalVotes, Error, proposal_already_complete,
  proposal_expired, relayer_already_voted, proposal_does_not_exist, Runtime, State, deposit_event,
  insert_votes, on_rest, proposal_approved, proposal_rejected, proposal_succeeded,
}
use fusotao_protocol.Bridge.Types as BridgeTypes
use fusotao_protocol.Bridge.Votes.{
  default_votes, try_to_complete, is_complete, has_voted, is_expired,
}

module _ {N : Type 0} (rt : Runtime N) where
  -- The votes that are stored, or new ones that expire after the lifetime.
  unfoldable pub votes_or_new : ℕ → ℕ → ℕ → Action (State N) Error ProposalVotes
  votes_or_new src_id nonce prop = do
    now ← gets (λ s. s.now)
    known ← gets (λ s. s.votes src_id nonce prop)
    elim known [
      | some v ↦ pure v
      | none ↦ (do
        expiry ← lift (add_in rt.block_numbers rt.overflow_checks now rt.proposal_lifetime)
        pure (record default_votes { expiry = expiry }))
    ]

  -- The votes with one more.
  abbrev pub voted : ℕ → Bool → ProposalVotes → ProposalVotes
  voted who true v = record v { votes_for = v.votes_for ++ who ∷ [] }
  voted who false v = record v { votes_against = v.votes_against ++ who ∷ [] }

  abbrev pub vote_event : ℕ → ℕ → ℕ → Bool → BridgeTypes.Event
  vote_event src_id nonce who true = BridgeTypes.vote_for src_id nonce who
  vote_event src_id nonce who false = BridgeTypes.vote_against src_id nonce who

  unfoldable pub commit_vote : ℕ → ℕ → ℕ → ℕ → Bool → Action (State N) Error (Unit {0})
  unfolding votes_or_new
  commit_vote who nonce src_id prop in_favour = do
    v ← votes_or_new src_id nonce prop
    now ← gets (λ s. s.now)
    require (not (is_complete v)) proposal_already_complete
    require (not (is_expired v now)) proposal_expired
    require (not (has_voted v who)) relayer_already_voted
    deposit_event (vote_event src_id nonce who in_favour)
    insert_votes src_id nonce prop (voted who in_favour v)

  unfoldable pub finalize_execution : ℕ → ℕ → ℕ → Action (State N) Error (Unit {0})
  finalize_execution src_id nonce call = do
    deposit_event (proposal_approved src_id nonce)
    on_rest (rt.dispatch call)
    deposit_event (proposal_succeeded src_id nonce)

  unfoldable pub cancel_execution : ℕ → ℕ → Action (State N) Error (Unit {0})
  cancel_execution src_id nonce = deposit_event (proposal_rejected src_id nonce)

  -- What follows a status.
  abbrev pub conclude : ProposalStatus → ℕ → ℕ → ℕ → Action (State N) Error (Unit {0})
  unfolding finalize_execution cancel_execution
  conclude approved src_id nonce prop = finalize_execution src_id nonce prop
  conclude rejected src_id nonce prop = cancel_execution src_id nonce
  conclude initiated src_id nonce prop = pure tt

  unfoldable pub try_resolve_proposal : ℕ → ℕ → ℕ → Action (State N) Error (Unit {0})
  unfolding finalize_execution cancel_execution try_to_complete
  try_resolve_proposal nonce src_id prop = do
    known ← gets (λ s. s.votes src_id nonce prop)
    elim known [
      | none ↦ raise proposal_does_not_exist
      | some v ↦ (do
        now ← gets (λ s. s.now)
        require (not (is_complete v)) proposal_already_complete
        require (not (is_expired v now)) proposal_expired
        threshold ← gets (λ s. s.relayer_threshold)
        total ← gets (λ s. s.relayer_count)
        completed ← lift (try_to_complete rt.overflow_checks threshold total v)
        insert_votes src_id nonce prop completed.0
        conclude completed.1 src_id nonce prop)
    ]

  unfoldable pub vote_for : ℕ → ℕ → ℕ → ℕ → Action (State N) Error (Unit {0})
  vote_for who nonce src_id prop =
      commit_vote who nonce src_id prop true >> try_resolve_proposal nonce src_id prop

  unfoldable pub vote_against : ℕ → ℕ → ℕ → ℕ → Action (State N) Error (Unit {0})
  vote_against who nonce src_id prop =
      commit_vote who nonce src_id prop false >> try_resolve_proposal nonce src_id prop
