-- ===== src/Reward.antt =====
-- pallet-fuso-reward: what traders earn with the volume that they trade.
-- Source: pallet-fuso-reward/src/lib.rs.
pub mod Volumes
pub mod Claims
pub mod Errors
mod Tests
pub mod History
use fusotao_protocol.Base.{
  ℕ, ◌+◌, ◌-◌, Bool, Option, none, some, List, [], ◌∷◌, ◌++◌, ◌==◌, ltb, if◌then◌else◌,
}
use fusotao_protocol.Base.Words.{u128_mod, add_in, rem_by, checked_add}
use fusotao_protocol.Base.Result.{Result, ok, ok_or, ensure, ◌>>=◌ as ◌then◌, ◌>>◌ as ◌next◌}
use fusotao_protocol.Base.Action.{
  Action, pure, raise, gets, modify, require, lift, transactional, ◌>>=◌, ◌>>◌,
}
use fusotao_protocol.Base.Dict.{Dict, Key, lookup, put}
use fusotao_protocol.Base.Assoc.{at_1}
use fusotao_protocol.Token.Types.{Origin, root, unsigned, signed}

-- The pallet's errors, then those that it passes on.
pub data Error : Type 0 where
  overflow divide_by_zero reward_not_found bad_origin : Error
  foreign : ℕ → Error

pub data Event : Type 0 where
  reward_claimed : ℕ → ℕ → Event
  era_rewards_updated : ℕ → Event

pub record Reward : Type 0 where
  pub confirmed : ℕ
  pub pending_vol : ℕ
  pub last_modify : ℕ

-- The configuration, the token pallet over the other storage `N`, and the product of a balance and
-- `Perquintill::from_rational`. The closures have the free and the reserved balance, and the
-- issuance; what they leave is written when they succeed.
pub record Config (N : Type 0) : Type 0 where
  pub era_duration : ℕ
  pub reward_terminate_at : ℕ
  pub overflow_checks : Bool
  pub native_token_id : ℕ
  pub portion : ℕ → ℕ → ℕ → ℕ
  pub try_mutate_account : ℕ → ℕ → (ℕ × ℕ → Action N Error (ℕ × ℕ)) → Action N Error (Unit {0})
  pub try_mutate_issuance : ℕ → (ℕ → Result Error ℕ) → Action N Error (Unit {0})

-- `now` is the number of the block, `native` the storage of the other pallets.
pub record State (N : Type 0) : Type 0 where
  pub rewards : Dict Reward
  pub era_rewards : ℕ
  pub volumes : ℕ → ℕ
  pub events : List Event
  pub now : ℕ
  pub native : N

-- The entry of an account.
abbrev pub entry_of : ℕ → Key
entry_of who = (who, 0)

-- `ValueQuery`
abbrev pub or_default : Option Reward → Reward
or_default none = record { confirmed = 0; pending_vol = 0; last_modify = 0 }
or_default (some r) = r

module _ {N : Type 0} where
  abbrev pub reward_of : ℕ → State N → Reward
  reward_of who s = or_default (lookup (entry_of who) s.rewards)

  abbrev pub put_reward : ℕ → Option Reward → Action (State N) Error (Unit {0})
  put_reward who r = modify (λ s. record s { rewards = put (entry_of who) r s.rewards })

  abbrev pub deposit_event : Event → Action (State N) Error (Unit {0})
  deposit_event e = modify (λ s. record s { events = s.events ++ e ∷ [] })

module _ {N : Type 0} (cf : Config N) where
  -- The first block of an era: `at - at % Self::era_duration()`
  unfoldable pub era_start : ℕ → Result Error ℕ
  era_start at = rem_by at cf.era_duration then λ passed. ok (at - passed)

  -- The rewards of an era, as they are now.
  abbrev pub paid_now : State N → ℕ
  paid_now s = if ltb cf.reward_terminate_at s.now then 0 else s.era_rewards

  -- The volume of an earlier era becomes a confirmed reward.
  unfoldable pub settle_era : Reward → State N → Result Error ℕ
  settle_era r s =
      let total_vol = s.volumes r.last_modify in
      ensure (ltb 0 total_vol) divide_by_zero
      next ok_or (checked_add r.confirmed (cf.portion r.pending_vol total_vol (paid_now s)))
          overflow

  -- The closure on the entry.
  unfoldable pub rotated : ℕ → ℕ → Reward → State N → Result Error Reward
  rotated at vol r s =
      if at == r.last_modify
      then (ok_or (checked_add r.pending_vol vol) overflow then λ pending.
          ok (record r { pending_vol = pending }))
      else if r.pending_vol == 0
      then ok (record r { pending_vol = vol; last_modify = at })
      else (settle_era r s then λ sum.
          ok (record { confirmed = sum; pending_vol = vol; last_modify = at }))

  unfoldable pub rotate_reward : ℕ → ℕ → ℕ → Action (State N) Error ℕ
  rotate_reward at vol account = transactional (do
    r ← gets (λ s. rotated at vol (reward_of account s) s)
    r' ← lift r
    put_reward account (some r')
    pure r'.confirmed)

  -- `try_mutate_issuance` on the native token
  abbrev pub issue : ℕ → Action N Error (Unit {0})
  issue amount =
      cf.try_mutate_issuance cf.native_token_id (λ v. ok_or (checked_add v amount) overflow)

  -- The closure on the account.
  abbrev pub receive : ℕ → ℕ × ℕ → Action N Error (ℕ × ℕ)
  receive amount (free, reserved) = do
    issue amount
    free' ← lift (add_in u128_mod cf.overflow_checks free amount)
    pure (free', reserved)

  -- The confirmed amount goes to the account and to the issuance.
  unfoldable pub pay_out : ℕ → ℕ → Action (State N) Error (Unit {0})
  pay_out who amount s =
      let (r, n) = cf.try_mutate_account cf.native_token_id who (receive amount) s.native in
      (r, record s { native = n })

  abbrev unless_empty : Reward → Option Reward
  unless_empty r = if ltb 0 r.pending_vol then some r else none

  -- The closure on the entry, which must be there.
  unfoldable pub take_confirmed : ℕ → Option Reward → Action (State N) Error ℕ
  take_confirmed who none = raise reward_not_found
  take_confirmed who (some r) = do
    (if ltb 0 r.confirmed then pay_out who r.confirmed else pure tt)
    put_reward who (unless_empty (record r { confirmed = 0 }))
    pure r.confirmed

  -- `Rewards::try_mutate_exists`
  unfoldable pub mutate_reward : ℕ → Action (State N) Error ℕ
  mutate_reward who = do
    entry ← gets (λ s. lookup (entry_of who) s.rewards)
    take_confirmed who entry

  unfoldable pub claim_reward : ℕ → ℕ → Action (State N) Error ℕ
  claim_reward who at = transactional (do
    era ← lift (era_start at)
    confirmed ← rotate_reward era 0 who
    if confirmed == 0 then pure 0 else mutate_reward who)

  unfoldable pub take_reward : Origin → Action (State N) Error (Unit {0})
  take_reward root = raise bad_origin
  take_reward unsigned = raise bad_origin
  take_reward (signed who) = do
    at ← gets (λ s. s.now)
    reward ← claim_reward who at
    deposit_event (reward_claimed who reward)

  unfoldable pub set_era_rewards : Origin → ℕ → Action (State N) Error (Unit {0})
  set_era_rewards (signed who) era_rewards = raise bad_origin
  set_era_rewards unsigned era_rewards = raise bad_origin
  set_era_rewards root era_rewards = do
    modify (λ s. record s { era_rewards = era_rewards })
    deposit_event (era_rewards_updated era_rewards)

  pub total_volume : ℕ → State N → Result Error ℕ
  total_volume at s = era_start at then λ era. ok (s.volumes era)

  pub acked_reward : ℕ → State N → ℕ
  acked_reward who s = (reward_of who s).confirmed

  -- The volume of an era grows, unless it overflows.
  abbrev pub add_volume : ℕ → ℕ → Action (State N) Error (Unit {0})
  add_volume era vol = do
    v ← gets (λ s. s.volumes era)
    v' ← lift (ok_or (checked_add v vol) overflow)
    modify (λ s. record s { volumes = at_1 era v' s.volumes })

  unfoldable pub save_trading : ℕ → ℕ → ℕ → Action (State N) Error (Unit {0})
  save_trading trader vol at =
      if vol == 0
      then pure tt
      else transactional (do
        era ← lift (era_start at)
        add_volume era vol
        rotated_to ← rotate_reward era vol trader
        pure tt)
