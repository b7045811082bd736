-- ===== src/Foundation.antt =====
-- pallet-fuso-foundation: funds that are locked at the genesis and unlocked in steps.
-- Source: pallet-fuso-foundation/src/lib.rs.
pub mod Schedule
pub mod Funds
pub mod Ledger
pub mod Blocks
pub mod Genesis
mod Tests
use fusotao_protocol.Base.{
  ℕ, zero, suc, ◌+◌, ◌-◌, ◌*◌, ◌/◌, ◌%◌, ◌^◌, Bool, true, false, not, Option, none, some, List, [],
  ◌∷◌, ◌++◌, ◌==◌, ◌&&◌, ltb, if◌then◌else◌,
}
use fusotao_protocol.Base.Words.{u128_mod, sub_in, add_in, mul_in}
use fusotao_protocol.Base.Result.{Result, ok, err, panicked}
use fusotao_protocol.Base.Action.{Action, pure, gets, modify, lift, ◌>>=◌, ◌>>◌}

-- The pallet has no errors: a call ends or panics.
pub data Error : Type 0 where

pub record FoundationData : Type 0 where
  pub delay_durations : ℕ
  pub interval_durations : ℕ
  pub times : ℕ
  pub amount : ℕ
  pub first_amount : ℕ

pub data Event : Type 0 where
  pre_locked_fund_unlocked : ℕ → ℕ → Event
  unlocked_fund_all_balance : ℕ → Event

-- The configuration, and pallet_balances over a state `N`; its `reserve` may fail.
pub record Runtime (N : Type 0) : Type 0 where
  pub duration : ℕ
  pub overflow_checks : Bool
  pub deposit_creating : ℕ → ℕ → N → N
  pub reserve : ℕ → ℕ → N → Option N
  pub unreserve : ℕ → ℕ → N → N

pub record State (N : Type 0) : Type 0 where
  pub foundation : List (ℕ × FoundationData)
  pub events : List Event
  pub native : N

-- `Foundation::insert` and `Foundation::remove`
abbrev pub removed : ℕ → List (ℕ × FoundationData) → List (ℕ × FoundationData)
removed who [] = []
removed who ((k, d) ∷ fs) = let rest = removed who fs in if k == who then rest else (k, d) ∷ rest

abbrev pub inserted : ℕ → FoundationData → List (ℕ × FoundationData) → List (ℕ × FoundationData)
inserted who fund [] = (who, fund) ∷ []
inserted who fund ((k, d) ∷ fs) =
    let rest = inserted who fund fs in if k == who then (k, fund) ∷ fs else (k, d) ∷ rest

-- `unwrap()`
abbrev unwrap : {A : Type 0} → Option A → Result Error A
unwrap none = panicked
unwrap (some a) = ok a

abbrev pub u32_mod : ℕ
u32_mod = 2 ^ 32

-- What becomes of a fund at the beginning of a period.
pub data Due : Type 0 where
  nothing first regular : Due

-- `now` is the number of the period. A remainder by zero panics; it is taken only where the
-- comparison before it holds.
unfoldable pub due : ℕ → FoundationData → Result Error Due
due now fund =
    if ltb fund.delay_durations now
    then (if fund.interval_durations == 0
        then panicked
        else if (now - fund.delay_durations) % fund.interval_durations == 0
        then ok regular
        else ok nothing)
    else if now == fund.delay_durations
    then (if fund.interval_durations == 0 then panicked else ok first)
    else ok nothing

-- `balance.times = balance.times - 1`
unfoldable pub one_less : Bool → FoundationData → Result Error FoundationData
one_less checks fund = elim (sub_in {E = Error} u32_mod checks fund.times 1) [
  | ok times ↦ ok (record fund { times = times })
  | err e ↦ err e
  | panicked ↦ panicked
]

module _ {N : Type 0} (rt : Runtime N) where
  abbrev pub unlock : ℕ → ℕ → Action (State N) Error (Unit {0})
  unlock account value = modify (λ s. record s {
    native = rt.unreserve account value s.native;
    events = s.events ++ pre_locked_fund_unlocked account value ∷ [];
  })

  -- One item of the loop over the funds.
  abbrev pub settle_due : ℕ → FoundationData → Due → Action (State N) Error (Unit {0})
  settle_due account fund nothing = pure tt
  settle_due account fund first = unlock account fund.first_amount
  settle_due account fund regular = do
    unlock account fund.amount
    fund' ← lift (one_less rt.overflow_checks fund)
    if fund'.times == 0
        then modify (λ s. record s { foundation = removed account s.foundation })
        else modify (λ s. record s { foundation = inserted account fund' s.foundation })

  pub unlock_funds : ℕ → List (ℕ × FoundationData) → Action (State N) Error (Unit {0})
  unlock_funds now [] = pure tt
  unlock_funds now ((account, fund) ∷ funds) = do
    what ← lift (due now fund)
    settle_due account fund what
    unlock_funds now funds

  pub unlock_fund : ℕ → Action (State N) Error (Unit {0})
  unfolding unlock_funds
  unlock_fund now = do funds ← gets (λ s. s.foundation); unlock_funds now funds

  -- `on_initialize`, at every block; a duration of zero panics.
  pub initialize : ℕ → Action (State N) Error (Unit {0})
  initialize now =
      if rt.duration == 0
      then lift panicked
      else if not (now % rt.duration == 0)
      then pure tt
      else unlock_fund (now / rt.duration)

  -- `GenesisBuild::build`: each fund is created, reserved and stored.
  pub build : List (ℕ × FoundationData) → Action (State N) Error (Unit {0})
  build [] = pure tt
  build ((account, fund) ∷ funds) = do
    regular_part ← lift (mul_in u128_mod rt.overflow_checks fund.amount fund.times)
    total ← lift (add_in u128_mod rt.overflow_checks regular_part fund.first_amount)
    modify (λ s. record s { native = rt.deposit_creating account total s.native })
    reserved ← gets (λ s. rt.reserve account total s.native)
    native ← lift (unwrap reserved)
    modify (λ s. record s { native = native; foundation = inserted account fund s.foundation })
    build funds
