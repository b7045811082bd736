-- ===== src/Verifier/State.antt =====
-- The storage of pallet-fuso-verifier, its events and its configuration.
-- Source: pallet-fuso-verifier/src/lib.rs, the structures, `Config`, the storage and `Event`;
-- fuso-support/src/lib.rs and fuso-support/src/traits.rs, what the configuration names.
use fusotao_protocol.Base.{ℕ, Bool, Option, List, [], ◌∷◌, ◌++◌}
use fusotao_protocol.Base.Result.{Result, ok, err, panicked}
use fusotao_protocol.Base.Action.{Action, pure, raise, modify}
use fusotao_protocol.Base.Dict.{Dict}
use fusotao_protocol.Token.Types.{Origin, root, unsigned, signed}
use fusotao_protocol.Verifier.Types.{Error, Runtime, Reserves}
use fusotao_protocol.Verifier.Leaf.{MerkleLeaf}

-- `DispatchError`: an error of this pallet, one of the system, or one of another pallet.
pub data Failure : Type 0 where
  of_pallet : Error → Failure
  bad_origin cannot_lookup : Failure
  foreign : ℕ → Failure

abbrev pub reserve_for_staking : ℕ
reserve_for_staking = 0

abbrev pub reserve_for_authorizing_stash : ℕ
reserve_for_authorizing_stash = 2

abbrev pub reserve_for_pending_unstake : ℕ
reserve_for_pending_unstake = 3

abbrev pub dominator_registered : ℕ
dominator_registered = 0

abbrev pub dominator_inactive : ℕ
dominator_inactive = 1

abbrev pub dominator_active : ℕ
dominator_active = 2

abbrev pub dominator_evicted : ℕ
dominator_evicted = 3

pub record Trade : Type 0 where
  pub token_id : ℕ
  pub root : List ℕ
  pub amount : ℕ
  pub vol : ℕ

pub data Command : Type 0 where
  ask_limit bid_limit : ℕ → ℕ → ℕ → ℕ → ℕ → ℕ → Command
  cancel transfer_out transfer_in reject_transfer_out : ℕ → ℕ → Command
  reject_transfer_in : Command

pub record Proof : Type 0 where
  pub event_id : ℕ
  pub user_id : ℕ
  pub cmd : Command
  pub leaves : List MerkleLeaf
  pub maker_page_delta : ℕ
  pub maker_account_delta : ℕ
  pub merkle_proof : List ℕ
  pub root : List ℕ

-- A callback is a call of the runtime, by a number.
pub data Receipt : Type 0 where
  authorize revoke : ℕ → ℕ → ℕ → Receipt
  revoke_with_callback : ℕ → ℕ → ℕ → ℕ → Receipt

pub record Dominator : Type 0 where
  pub name : List ℕ
  pub staked : ℕ
  pub merkle_root : List ℕ
  pub start_from : ℕ
  pub sequence : ℕ × ℕ
  pub status : ℕ

pub record Staking : Type 0 where
  pub from_season : ℕ
  pub amount : ℕ

pub record Bonus : Type 0 where
  pub staked : ℕ
  pub profit : List (ℕ × ℕ)

pub record DominatorSetting : Type 0 where
  pub beneficiary : Option ℕ
  pub x25519_pubkey : List ℕ
  pub rpc_endpoint : List ℕ

pub record Broker : Type 0 where
  pub beneficiary : ℕ
  pub staked : ℕ
  pub register_at : ℕ
  pub rpc_endpoint : List ℕ

pub record Distribution : Type 0 where
  pub from_season : ℕ
  pub to_season : ℕ
  pub staking : ℕ

pub data Event : Type 0 where
  dominator_claimed dominator_went_online dominator_went_offline : ℕ → Event
  dominator_was_evicted dominator_was_launched : ℕ → Event
  token_hosted token_revoked : ℕ → ℕ → ℕ → ℕ → Event
  tao_staked tao_unstaked : ℕ → ℕ → ℕ → Event
  tao_unstake_unlock : ℕ → ℕ → Event
  dominator_x25519_key_updated dominator_rpc_endpoint_updated : ℕ → List ℕ → Event

-- `now` is the number of the block, `native` the storage of the other pallets.
pub record State (N : Type 0) : Type 0 where
  pub receipts : ℕ → ℕ → Option Receipt
  pub dominators : List (ℕ × Dominator)
  pub dominator_settings : ℕ → Option DominatorSetting
  pub brokers : ℕ → Option Broker
  pub reserves : Reserves
  pub bonuses : ℕ → ℕ → Bonus
  pub stakings : Dict Staking
  pub pending_unstakings : Dict ℕ
  pub events : List Event
  pub now : ℕ
  pub native : N

-- `ReservableToken`, as far as the pallet calls it. The closure of `try_mutate_account` has the free
-- and the reserved balance, and its result is written when it succeeds.
pub record Asset (N : Type 0) : Type 0 where
  pub native_token_id : ℕ
  pub is_stable : ℕ → N → Bool
  pub can_reserve : ℕ → ℕ → ℕ → N → Bool
  pub reserve : ℕ → ℕ → ℕ → Action N Failure (Unit {0})
  pub unreserve : ℕ → ℕ → ℕ → Action N Failure (Unit {0})
  pub transfer_token : ℕ → ℕ → ℕ → ℕ → Action N Failure ℕ
  pub try_mutate_account : ℕ → ℕ → (ℕ × ℕ → Result Failure (ℕ × ℕ)) → Action N Failure (Unit {0})

-- The configuration, and what other crates implement: `Perquintill::from_rational` with the product
-- by a balance, the Merkle tree's `verify` and hash, the signature of the old beneficiary, the
-- compression and the codec of proofs, and the dispatch of a callback.
pub record Config (N : Type 0) : Type 0 where
  pub runtime : Runtime
  pub asset : Asset N
  pub save_trading : ℕ → ℕ → ℕ → Action N Failure (Unit {0})
  pub set_price : ℕ → ℕ → ℕ → ℕ → N → N
  pub dominator_online_threshold : ℕ
  pub broker_staking_threshold : ℕ
  pub season_duration : ℕ
  pub dominator_check_grace_period : ℕ
  pub minimal_staking_amount : ℕ
  pub system_account : ℕ
  pub portion : ℕ → ℕ → ℕ → ℕ
  pub lookup_account : ℕ → Option ℕ
  pub is_ascii : List ℕ → Bool
  pub zero_hash : List ℕ
  pub hashing : List ℕ → List ℕ
  pub smt_verify : List ℕ → List ℕ → List (List ℕ × List ℕ) → Option Bool
  pub verify_beneficiary : ℕ → ℕ → List ℕ → N → Bool
  pub inc_account_nonce : ℕ → N → N
  pub uncompressed_size : List ℕ → Option (ℕ × List ℕ)
  pub decompress : List ℕ → ℕ → Option (List ℕ)
  pub decode_proofs : List ℕ → Option (List Proof)
  pub dispatch : ℕ → ℕ → State N → State N

abbrev pub deposit_event : {N : Type 0} → Event → Action (State N) Failure (Unit {0})
deposit_event e = modify (λ s. record s { events = s.events ++ e ∷ [] })

-- A check of a proof, with its error as the error of the call.
abbrev pub checked : {A : Type 0} → Result Error A → Result Failure A
checked (ok a) = ok a
checked (err e) = err (of_pallet e)
checked panicked = panicked

-- A call of another pallet.
abbrev pub on_native : {N A : Type 0} → Action N Failure A → Action (State N) Failure A
on_native m s = let (r, n) = m s.native in (r, record s { native = n })

-- `ensure_signed`, `ensure_root` and `T::Lookup::lookup`
abbrev pub ensure_signed : {S : Type 0} → Origin → Action S Failure ℕ
ensure_signed (signed who) = pure who
ensure_signed root = raise bad_origin
ensure_signed unsigned = raise bad_origin

abbrev pub ensure_root : {S : Type 0} → Origin → Action S Failure (Unit {0})
ensure_root root = pure tt
ensure_root (signed who) = raise bad_origin
ensure_root unsigned = raise bad_origin
