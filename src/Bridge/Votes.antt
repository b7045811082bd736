-- ===== src/Bridge/Votes.antt =====
-- `ProposalVotes` of pallet-chainbridge/src/lib.rs.
use fusotao_protocol.Base.{
  ℕ, ◌^◌, Bool, true, false, ◌||◌, List, [], ◌∷◌, ◌==◌, ltb, leb, length, if◌then◌else◌,
}
use fusotao_protocol.Base.Words.{add_in}
use fusotao_protocol.Base.Result.{Result, ok, ◌>>=◌}
use fusotao_protocol.Bridge.Types.{
  ProposalStatus, initiated, approved, rejected, ProposalVotes, Error,
}

abbrev pub u32_mod : ℕ
u32_mod = 2 ^ 32

abbrev pub contains : ℕ → List ℕ → Bool
contains who [] = false
contains who (x ∷ xs) = (who == x) || contains who xs

-- `ProposalVotes::default`
abbrev pub default_votes : ProposalVotes
default_votes = record { votes_for = []; votes_against = []; status = initiated; expiry = 0 }

-- The new votes and the status that is returned. The sum of the last test is of `u32`, and is taken
-- only where the threshold is not above the total.
unfoldable pub try_to_complete :
    Bool → ℕ → ℕ → ProposalVotes → Result Error (ProposalVotes × ProposalStatus)
try_to_complete checks threshold total v =
    if leb threshold (length v.votes_for)
    then ok (record v { status = approved }, approved)
    else if leb threshold total
    then (do
      bound ← add_in u32_mod checks (length v.votes_against) threshold
      if ltb total bound then ok (record v { status = rejected }, rejected) else ok (v, initiated))
    else ok (v, initiated)

abbrev pub is_complete : ProposalVotes → Bool
is_complete v = elim v.status [ initiated ↦ false | approved ↦ true | rejected ↦ true ]

abbrev pub has_voted : ProposalVotes → ℕ → Bool
has_voted v who = contains who v.votes_for || contains who v.votes_against

abbrev pub is_expired : ProposalVotes → ℕ → Bool
is_expired v now = leb v.expiry now
