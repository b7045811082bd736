-- ===== src/Bridge/Types.antt =====
-- The storage, the events and the errors of pallet-chainbridge.
-- Source: pallet-chainbridge/src/lib.rs.
use fusotao_protocol.Base.{ℕ, Bool, List, ◌++◌, [], ◌∷◌, Option, some, ◌==◌, ◌&&◌, if◌then◌else◌}
use fusotao_protocol.Base.Action.{Action, modify}
use fusotao_protocol.Token.Types.{Origin}

pub data ProposalStatus : Type 0 where
  initiated approved rejected : ProposalStatus

pub record ProposalVotes : Type 0 where
  pub votes_for : List ℕ
  pub votes_against : List ℕ
  pub status : ProposalStatus
  pub expiry : ℕ

-- The errors of the pallet, the one of the origin checks, and those of a dispatched call.
pub data Error : Type 0 where
  threshold_not_set invalid_chain_id invalid_threshold chain_not_whitelisted : Error
  chain_already_whitelisted resource_does_not_exist relayer_already_exists : Error
  relayer_invalid must_be_relayer relayer_already_voted proposal_already_exists : Error
  proposal_does_not_exist proposal_not_complete proposal_already_complete : Error
  proposal_expired resource_id_not_map_to_token bad_origin : Error
  dispatch_error : ℕ → Error

pub data Event : Type 0 where
  relayer_threshold_changed chain_whitelisted relayer_added relayer_removed : ℕ → Event
  fungible_transfer : ℕ → ℕ → List ℕ → ℕ → List ℕ → Event
  non_fungible_transfer : ℕ → ℕ → List ℕ → List ℕ → List ℕ → List ℕ → Event
  generic_transfer : ℕ → ℕ → List ℕ → List ℕ → Event
  vote_for vote_against : ℕ → ℕ → ℕ → Event
  proposal_approved proposal_rejected proposal_succeeded proposal_failed : ℕ → ℕ → Event
  proposal_vote : ℕ → List ℕ → ℕ → Event

-- The configuration, and the rest of the chain as a state `N`: `dispatch` is what a proposed call
-- does there for the bridge account, and `asset_id_by_name` is `AssetIdByName::try_get_asset_id`.
pub record Runtime (N : Type 0) : Type 0 where
  pub chain_id : ℕ
  pub proposal_lifetime : ℕ
  pub native_resource_id : List ℕ
  pub block_numbers : ℕ
  pub overflow_checks : Bool
  pub is_admin : Origin → Bool
  pub asset_id_by_name : ℕ → List ℕ → N → Option ℕ
  pub dispatch : ℕ → Action N Error (Unit {0})

-- `Relayers` keeps the accounts whose value is `true`; a removed one reads as `false`. A proposal is
-- a number, and `Votes` is read by chain, nonce and proposal.
pub record State (N : Type 0) : Type 0 where
  pub chain_nonces : ℕ → Option ℕ
  pub relayer_threshold : ℕ
  pub relayers : List ℕ
  pub relayer_count : ℕ
  pub votes : ℕ → ℕ → ℕ → Option ProposalVotes
  pub resources : List ℕ → Option (List ℕ)
  pub now : ℕ
  pub events : List Event
  pub rest : N

module _ {N : Type 0} where
  abbrev pub deposit_event : Event → Action (State N) Error (Unit {0})
  deposit_event e = modify (λ s. record s { events = s.events ++ e ∷ [] })

  -- `Votes::insert`
  abbrev pub insert_votes : ℕ → ℕ → ℕ → ProposalVotes → Action (State N) Error (Unit {0})
  insert_votes src_id nonce prop v = modify (λ s. record s {
    votes =
        λ c n p. if (c == src_id) && ((n == nonce) && (p == prop)) then some v else s.votes c n p;
  })

  -- A call on the rest of the chain.
  abbrev pub on_rest : Action N Error (Unit {0}) → Action (State N) Error (Unit {0})
  on_rest m s = let (r, n) = m s.rest in (r, record s { rest = n })
