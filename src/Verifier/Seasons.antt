-- ===== src/Verifier/Seasons.antt =====
-- Seasons: the shares in the profit of a dominator, and what a block begins with.
-- Source: pallet-fuso-verifier/src/lib.rs.
pub mod Laws
pub mod Shares
pub mod Drain
pub mod Payback
mod Tests
use fusotao_protocol.Base.{
  ℕ, zero, suc, ◌+◌, ◌-◌, ◌^◌, Bool, Option, none, some, List, [], ◌∷◌, not, ◌==◌, ◌||◌, leb,
  if◌then◌else◌,
}
use fusotao_protocol.Base.Words.{u128_mod, add_in, sub_in, mul_in, div_by, rem_by}
use fusotao_protocol.Base.Result.{Result, ok, ◌>>=◌ as ◌then◌}
use fusotao_protocol.Base.Action.{
  Action, pure, gets, modify, lift, attempt, transactional, ◌>>=◌, ◌>>◌,
}
use fusotao_protocol.Base.Dict.{Key, Dict, lookup, erase}
use fusotao_protocol.Base.Assoc.{at_2, find, entry}
use fusotao_protocol.Verifier.State.{
  Failure, Dominator, Staking, Bonus, Distribution, State, Config, tao_unstake_unlock,
  reserve_for_pending_unstake, deposit_event, on_native,
}
use fusotao_protocol.Verifier.Reserving.{reserve, unreserve}

abbrev pub u32_mod : ℕ
u32_mod = 2 ^ 32

abbrev pub is_empty : {A : Type 0} → List A → Bool
is_empty [] = Bool.true
is_empty (x ∷ xs) = Bool.false

abbrev pub start_or_default : Option Dominator → ℕ
start_or_default none = 0
start_or_default (some d) = d.start_from

abbrev pub staking_or_default : Option Staking → Staking
staking_or_default none = record { from_season = 0; amount = 0 }
staking_or_default (some staking) = staking

module _ {N : Type 0} (cf : Config N) where
  unfoldable pub current_season : ℕ → ℕ → Result Failure ℕ
  current_season now claim_at =
      if leb now claim_at then ok 0 else div_by (now - claim_at) cf.season_duration

  pub start_block_of_season : ℕ → ℕ → Result Failure ℕ
  start_block_of_season claim_at season =
      let checks = cf.runtime.overflow_checks in
      mul_in u32_mod checks season cf.season_duration then λ blocks.
      add_in u32_mod checks claim_at blocks

  pub put_profit : ℕ → ℕ → ℕ → ℕ → Action (State N) Failure (Unit {0})
  put_profit dominator season currency balance =
      if balance == 0
      then pure tt
      else transactional (do
        bonus ← gets (λ s. s.bonuses dominator season)
        profit ← lift (
            entry (λ p. add_in u128_mod cf.runtime.overflow_checks p balance) balance currency
              bonus.profit)
        modify (λ s. record s {
          bonuses = at_2 dominator season (record bonus { profit = profit }) s.bonuses;
        }))

  -- The profit of one season, token by token.
  unfoldable pub season_shares :
      (ℕ → ℕ) → List (ℕ × ℕ) → List (ℕ × ℕ) → Result Failure (List (ℕ × ℕ))
  season_shares part [] shares = ok shares
  season_shares part ((token, profit) ∷ profits) shares =
      entry (λ share. add_in u128_mod cf.runtime.overflow_checks share (part profit)) (part profit)
        token shares
      then season_shares part profits

  -- The loop over a number of seasons from one on.
  unfoldable pub gather_shares :
      (ℕ → Bonus) → ℕ → ℕ → ℕ → List (ℕ × ℕ) → Result Failure (List (ℕ × ℕ))
  gather_shares bonuses staking zero season shares = ok shares
  gather_shares bonuses staking (suc rounds) season shares =
      let bonus = bonuses season in
      (if (bonus.staked == 0) || is_empty bonus.profit
        then ok shares
        else season_shares (cf.portion staking bonus.staked) bonus.profit shares)
      then gather_shares bonuses staking rounds (season + 1)

  unfoldable pub pay_shares : ℕ → List (ℕ × ℕ) → Action (State N) Failure (Unit {0})
  pay_shares staker [] = pure tt
  pay_shares staker ((token, profit) ∷ shares) = do
    on_native (
        cf.asset.try_mutate_account token staker
          (λ b. add_in u128_mod cf.runtime.overflow_checks b.0 profit then λ free. ok (free, b.1)))
    pay_shares staker shares

  unfoldable pub take_shares : ℕ → ℕ → Distribution → Action (State N) Failure ℕ
  take_shares staker dominator d =
      if d.to_season == d.from_season
      then pure d.from_season
      else transactional (do
        bonuses ← gets (λ s. s.bonuses dominator)
        shares ←
            lift (gather_shares bonuses d.staking (d.to_season - d.from_season) d.from_season [])
        pay_shares staker shares
        pure d.to_season)

  pub current_season_of_dominator : ℕ → State N → Result Failure ℕ
  current_season_of_dominator dominator s =
      current_season s.now (start_or_default (find dominator s.dominators))

  -- The shares of one season in all tokens, and of a number of seasons.
  unfoldable pub add_pending : (ℕ → ℕ) → List (ℕ × ℕ) → ℕ → Result Failure ℕ
  add_pending part [] shares = ok shares
  add_pending part ((token, profit) ∷ profits) shares =
      add_in u128_mod cf.runtime.overflow_checks shares (part profit) then add_pending part profits

  unfoldable pub pending_seasons : (ℕ → Bonus) → ℕ → ℕ → ℕ → ℕ → Result Failure ℕ
  pending_seasons bonuses staking zero season shares = ok shares
  pending_seasons bonuses staking (suc rounds) season shares =
      let bonus = bonuses season in
      (if (bonus.staked == 0) || is_empty bonus.profit
        then ok shares
        else add_pending (cf.portion staking bonus.staked) bonus.profit shares)
      then pending_seasons bonuses staking rounds (season + 1)

  pub pending_shares_of_dominator : ℕ → ℕ → State N → Result Failure ℕ
  pending_shares_of_dominator dominator who s =
      let start_from = start_or_default (find dominator s.dominators) in
      let staking = staking_or_default (lookup (dominator, who) s.stakings) in
      if start_from == 0
      then ok 0
      else (current_season s.now start_from then λ season.
          if staking.amount == 0
          then ok 0
          else pending_seasons (s.bonuses dominator) staking.amount (season - staking.from_season)
              staking.from_season 0)

-- The entries of the map under the block `now`.
unfoldable pub prefix : ℕ → Dict ℕ → List (ℕ × ℕ)
prefix now [] = []
prefix now (e ∷ es) = let rest = prefix now es in if now == e.0.0 then (e.0.1, e.1) ∷ rest else rest

module _ {N : Type 0} (cf : Config N) where
  -- One dominator: the stakes at the end of a season are kept with its profit.
  unfoldable pub close_season : ℕ → ℕ → Dominator → Action (State N) Failure (Unit {0})
  close_season now id dominator =
      let checks = cf.runtime.overflow_checks in
      let start = dominator.start_from in
      if now == start then pure tt else do
        age ← lift (sub_in u32_mod checks now start)
        past ← lift (rem_by age cf.season_duration)
        if not (past == 0) then pure tt else do
          seasons ← lift (div_by age cf.season_duration)
          prv_season ← lift (sub_in u32_mod checks seasons 1)
          modify (λ s. record s {
            bonuses =
                at_2 id prv_season (record (s.bonuses id prv_season) { staked = dominator.staked })
                  s.bonuses;
          })

  unfoldable pub close_seasons : ℕ → List (ℕ × Dominator) → Action (State N) Failure (Unit {0})
  close_seasons now [] = pure tt
  close_seasons now ((id, dominator) ∷ dominators) = do
    close_season now id dominator
    close_seasons now dominators

  -- One stake whose time has come; an error is only logged.
  unfoldable pub unlock_pending : ℕ → ℕ → ℕ → Action (State N) Failure (Unit {0})
  unlock_pending now staker amount = do
    modify (λ s. record s { pending_unstakings = erase (now, staker) s.pending_unstakings })
    done ← attempt (
        unreserve cf reserve_for_pending_unstake staker cf.asset.native_token_id amount
          cf.system_account)
    if done then deposit_event (tao_unstake_unlock staker amount) else pure tt

  unfoldable pub unlock_all_pending : ℕ → List (ℕ × ℕ) → Action (State N) Failure (Unit {0})
  unlock_all_pending now [] = pure tt
  unlock_all_pending now ((staker, amount) ∷ stakes) = do
    unlock_pending now staker amount
    unlock_all_pending now stakes

  unfoldable pub on_initialize : ℕ → Action (State N) Failure (Unit {0})
  on_initialize now = do
    phase ← lift (rem_by now cf.dominator_check_grace_period)
    if not (phase == 0) then pure tt else do
      dominators ← gets (λ s. s.dominators)
      close_seasons now dominators
      stakes ← gets (λ s. prefix now s.pending_unstakings)
      unlock_all_pending now stakes
