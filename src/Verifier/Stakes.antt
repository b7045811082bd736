-- ===== src/Verifier/Stakes.antt =====
-- Stakes on dominators: `stake_on` and `unstake_from`, and their calls.
-- Source: pallet-fuso-verifier/src/lib.rs.
pub mod Books
pub mod Balance
pub mod Claims
pub mod Release
pub mod Evicted
mod Tests
use fusotao_protocol.Base.{
  ℕ, ◌+◌, ◌-◌, ◌*◌, Bool, Option, none, some, not, ◌==◌, ◌&&◌, ◌||◌, leb, if◌then◌else◌,
}
use fusotao_protocol.Base.Words.{u128_mod, add_in, sub_in, rem_by, checked_add, checked_sub}
use fusotao_protocol.Base.Result.{Result}
use fusotao_protocol.Base.Action.{
  Action, pure, gets, modify, require, or_raise, lift, transactional, ◌>>=◌, ◌>>◌,
}
use fusotao_protocol.Base.Dict.{lookup, insert, put}
use fusotao_protocol.Base.Assoc.{find, store}
use fusotao_protocol.Token.Types.{Origin}
use fusotao_protocol.Verifier.Types.{
  little_staking_amount, dominator_not_found, dominator_status_invalid, insufficient_balance,
  invalid_staking, overflow,
}
use fusotao_protocol.Verifier.State.{
  Failure, of_pallet, cannot_lookup, Dominator, Staking, State, Config, tao_staked, tao_unstaked,
  dominator_went_online, dominator_went_offline, dominator_registered, dominator_inactive,
  dominator_active, dominator_evicted, reserve_for_staking, reserve_for_pending_unstake,
  deposit_event, ensure_signed,
}
use fusotao_protocol.Verifier.Reserving.{reserve, unreserve}
use fusotao_protocol.Verifier.Seasons.{u32_mod, staking_or_default, current_season, take_shares}

-- `UNSTAKE_DELAY_BLOCKS`
abbrev pub unstake_delay_blocks : ℕ
unstake_delay_blocks = 14_400 * 4

module _ {N : Type 0} where
  abbrev pub put_dominator : ℕ → Dominator → Action (State N) Failure (Unit {0})
  put_dominator id d = modify (λ s. record s { dominators = store id d s.dominators })

  abbrev pub put_staking : ℕ → ℕ → Option Staking → Action (State N) Failure (Unit {0})
  put_staking dominator staker staking =
      modify (λ s. record s { stakings = put (dominator, staker) staking s.stakings })

  -- The entry of a dominator, which must be there.
  abbrev pub get_dominator : ℕ → Action (State N) Failure Dominator
  get_dominator id = do
    known ← gets (λ s. find id s.dominators)
    or_raise known (of_pallet dominator_not_found)

module _ {N : Type 0} (cf : Config N) where
  -- The status that the stakes give a dominator.
  abbrev pub status_by_stakes : ℕ → ℕ
  status_by_stakes staked =
      if leb cf.dominator_online_threshold staked then dominator_active else dominator_inactive

  -- The closure on the staker's entry.
  pub raise_staking : ℕ → ℕ → ℕ → ℕ → Action (State N) Failure (Unit {0})
  raise_staking staker dominator_id amount start_from = do
    old ← gets (λ s. staking_or_default (lookup (dominator_id, staker) s.stakings))
    reserve cf reserve_for_staking staker cf.asset.native_token_id amount dominator_id
    now ← gets (λ s. s.now)
    season ← lift (current_season cf now start_from)
    if not (old.amount == 0)
        then (take_shares cf staker dominator_id
              (record { from_season = old.from_season; to_season = season; staking = old.amount })
            >>= λ taken. pure tt)
        else pure tt
    total ← lift (add_in u128_mod cf.runtime.overflow_checks old.amount amount)
    put_staking dominator_id staker (some (record { from_season = season; amount = total }))

  -- The entry of the dominator with a stake more.
  pub record_stake : ℕ → ℕ → ℕ → Dominator → Action (State N) Failure (Unit {0})
  record_stake staker dominator_id amount dominator = do
    staked ← lift (add_in u128_mod cf.runtime.overflow_checks dominator.staked amount)
    let status = status_by_stakes staked
    deposit_event (tao_staked staker dominator_id amount)
    if (status == dominator_active) && (dominator.status == dominator_inactive)
        then deposit_event (dominator_went_online dominator_id)
        else pure tt
    put_dominator dominator_id (record dominator { staked = staked; status = status })

  pub stake_on : ℕ → ℕ → ℕ → Action (State N) Failure (Unit {0})
  stake_on staker dominator_id amount = transactional (do
    require (leb cf.minimal_staking_amount amount) (of_pallet little_staking_amount)
    dominator ← get_dominator dominator_id
    require ((dominator.status == dominator_active) || (dominator.status == dominator_inactive))
        (of_pallet dominator_status_invalid)
    raise_staking staker dominator_id amount dominator.start_from
    record_stake staker dominator_id amount dominator)

  -- The stake waits until a block at which blocks are initialized.
  pub queue_unstaking : ℕ → ℕ → Action (State N) Failure (Unit {0})
  queue_unstaking staker amount = do
    now ← gets (λ s. s.now)
    phase ← lift (rem_by now cf.dominator_check_grace_period)
    unlock_at ← lift (add_in u32_mod cf.runtime.overflow_checks (now - phase) unstake_delay_blocks)
    waiting ← gets (λ s. lookup (unlock_at, staker) s.pending_unstakings)
    total ←
        or_raise (checked_add (elim waiting [ none ↦ 0 | some v ↦ v ]) amount) (of_pallet overflow)
    modify (λ s. record s {
      pending_unstakings = insert (unlock_at, staker) total s.pending_unstakings;
    })

  -- The reserved balance waits with the system account.
  pub move_stake : ℕ → ℕ → ℕ → Action (State N) Failure (Unit {0})
  move_stake staker dominator_id amount = do
    unreserve cf reserve_for_staking staker cf.asset.native_token_id amount dominator_id
    reserve cf reserve_for_pending_unstake staker cf.asset.native_token_id amount cf.system_account

  -- The closure on the staker's entry.
  pub lower_staking : ℕ → ℕ → ℕ → ℕ → Action (State N) Failure (Unit {0})
  lower_staking staker dominator_id amount start_from = do
    entry ← gets (λ s. lookup (dominator_id, staker) s.stakings)
    staking ← or_raise entry (of_pallet invalid_staking)
    remain ← or_raise (checked_sub staking.amount amount) (of_pallet insufficient_balance)
    require ((remain == 0) || leb cf.minimal_staking_amount remain)
        (of_pallet little_staking_amount)
    move_stake staker dominator_id amount
    now ← gets (λ s. s.now)
    season ← lift (current_season cf now start_from)
    queue_unstaking staker amount
    take_shares cf staker dominator_id (record {
      from_season = staking.from_season;
      to_season = season;
      staking = staking.amount;
    })
        >>= λ taken. put_staking dominator_id staker (
            if not (remain == 0)
            then some (record { from_season = season; amount = remain })
            else none)

  -- The entry of the dominator with the stakes that are left.
  pub record_unstake : ℕ → ℕ → ℕ → ℕ → Dominator → Action (State N) Failure (Unit {0})
  record_unstake staker dominator_id amount staked dominator = do
    let status =
        if not (dominator.status == dominator_evicted)
        then status_by_stakes staked
        else dominator.status
    deposit_event (tao_unstaked staker dominator_id amount)
    if (status == dominator_inactive) && (dominator.status == dominator_active)
        then deposit_event (dominator_went_offline dominator_id)
        else pure tt
    put_dominator dominator_id (record dominator { staked = staked; status = status })

  pub unstake_from : ℕ → ℕ → ℕ → Action (State N) Failure (Unit {0})
  unstake_from staker dominator_id amount = transactional (do
    dominator ← get_dominator dominator_id
    require (not (dominator.status == dominator_registered)) (of_pallet dominator_status_invalid)
    staked ← or_raise (checked_sub dominator.staked amount) (of_pallet insufficient_balance)
    lower_staking staker dominator_id amount dominator.start_from
    record_unstake staker dominator_id amount staked dominator)

  pub stake : Origin → ℕ → ℕ → Action (State N) Failure (Unit {0})
  stake origin target amount = transactional (do
    staker ← ensure_signed origin
    dominator ← or_raise (cf.lookup_account target) cannot_lookup
    stake_on staker dominator amount)

  pub unstake : Origin → ℕ → ℕ → Action (State N) Failure (Unit {0})
  unstake origin target amount = transactional (do
    staker ← ensure_signed origin
    dominator ← or_raise (cf.lookup_account target) cannot_lookup
    unstake_from staker dominator amount)

  -- The shares of a stake, and the season it has come to.
  pub claim_stake : ℕ → ℕ → ℕ → Staking → Action (State N) Failure (Unit {0})
  claim_stake signer dex start_from staking = do
    now ← gets (λ s. s.now)
    season ← lift (current_season cf now start_from)
    from_season ←
        take_shares cf signer dex (record {
          from_season = staking.from_season;
          to_season = season;
          staking = staking.amount;
        })
    put_staking dex signer (some (record staking { from_season = from_season }))

  pub claim_shares : Origin → ℕ → Action (State N) Failure (Unit {0})
  claim_shares origin target = transactional (do
    signer ← ensure_signed origin
    dex ← or_raise (cf.lookup_account target) cannot_lookup
    dominator ← get_dominator dex
    require (not (dominator.status == dominator_registered)) (of_pallet dominator_status_invalid)
    entry ← gets (λ s. lookup (dex, signer) s.stakings)
    staking ← or_raise entry (of_pallet invalid_staking)
    claim_stake signer dex dominator.start_from staking)
