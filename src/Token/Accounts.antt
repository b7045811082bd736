-- ===== src/Token/Accounts.antt =====
-- The accounts of pallet-fuso-token: transfer, reserve, unreserve, repatriate, and the queries.
-- Source: pallet-fuso-token/src/lib.rs, the impls of `Token` and `ReservableToken`.
pub mod Transfer
pub mod Reserve
pub mod Repatriate
use fusotao_protocol.Base.{ℕ, Bool, true, Option, none, some, ◌&&◌, ◌==◌, leb, if◌then◌else◌}
use fusotao_protocol.Base.Words.{checked_add, checked_sub}
use fusotao_protocol.Base.Dict.{lookup}
use fusotao_protocol.Base.Action.{
  Action, pure, gets, modify, require, or_raise, transactional, ◌>>=◌, ◌>>◌,
}
use fusotao_protocol.Token.Types.{
  AccountData, or_default, BalanceStatus, to_free, to_reserved, Error, balance_zero,
  insufficient_balance, overflow, token_transfered, token_reserved, token_unreserved,
  token_repatriated, Runtime, State, deposit_event, mutate_balance, on_native,
}

-- An account that holds nothing is removed.
abbrev pub unless_dead : AccountData → Option AccountData
unless_dead account = if (account.free == 0) && (account.reserved == 0) then none else some account

module _ {N : Type 0} (rt : Runtime N) where
  pub free_balance : ℕ → ℕ → State N → ℕ
  free_balance token who s =
      if token == rt.native_token_id
      then rt.native_free s.native who
      else (or_default (lookup (token, who) s.balances)).free

  pub reserved_balance : ℕ → ℕ → State N → ℕ
  reserved_balance token who s =
      if token == rt.native_token_id
      then rt.native_reserved s.native who
      else (or_default (lookup (token, who) s.balances)).reserved

  -- The credit of a transfer: the second half of `transfer_token`, on the entry of the target.
  credit_free : ℕ → Option AccountData → Action (State N) Error (Unit {0} × Option AccountData)
  credit_free amount to = do
    let account = or_default to
    free ← or_raise (checked_add account.free amount) overflow
    pure (tt, some (record account { free = free }))

  pub transfer_token : ℕ → ℕ → ℕ → ℕ → Action (State N) Error ℕ
  unfolding credit_free
  transfer_token origin token amount target = transactional (
      if amount == 0
      then pure amount
      else if token == rt.native_token_id
      then (on_native (rt.native_transfer origin target amount) >> pure amount)
      else do
        mutate_balance (token, origin)
            (λ from. do
              account ← or_raise from balance_zero
              free ← or_raise (checked_sub account.free amount) insufficient_balance
              mutate_balance (token, target) (credit_free amount)
              pure (tt, unless_dead (record account { free = free })))
        deposit_event (token_transfered token origin target amount)
        pure amount)

  pub can_reserve : ℕ → ℕ → ℕ → State N → Bool
  unfolding free_balance
  can_reserve token who value s =
      if value == 0
      then true
      else if token == rt.native_token_id
      then rt.native_can_reserve s.native who value
      else leb value (free_balance token who s)

  pub reserve : ℕ → ℕ → ℕ → Action (State N) Error (Unit {0})
  reserve token who value =
      if value == 0
      then pure tt
      else if token == rt.native_token_id
      then on_native (rt.native_reserve who value)
      else mutate_balance (token, who)
          (λ entry. do
            account ← or_raise entry balance_zero
            free ← or_raise (checked_sub account.free value) insufficient_balance
            reserved ← or_raise (checked_add account.reserved value) overflow
            deposit_event (token_reserved token who value)
            pure (tt, some (record { free = free; reserved = reserved })))

  pub unreserve : ℕ → ℕ → ℕ → Action (State N) Error (Unit {0})
  unreserve token who value =
      if value == 0
      then pure tt
      else if token == rt.native_token_id
      then (do
        held ← gets (λ s. rt.native_reserved s.native who)
        require (leb value held) insufficient_balance
        modify (λ s. record s { native = rt.native_unreserve who value s.native }))
      else mutate_balance (token, who)
          (λ entry. do
            account ← or_raise entry balance_zero
            reserved ← or_raise (checked_sub account.reserved value) insufficient_balance
            free ← or_raise (checked_add account.free value) overflow
            deposit_event (token_unreserved token who value)
            pure (tt, some (record { free = free; reserved = reserved })))

  -- The credit of `repatriate_reserved`, to the balance that `status` names.
  credit_by :
      ℕ
      → BalanceStatus
      → Option AccountData
      → Action (State N) Error (Unit {0} × Option AccountData)
  credit_by value to_free to = do
    let account = or_default to
    free ← or_raise (checked_add account.free value) overflow
    pure (tt, some (record account { free = free }))
  credit_by value to_reserved to = do
    let account = or_default to
    reserved ← or_raise (checked_add account.reserved value) overflow
    pure (tt, some (record account { reserved = reserved }))

  -- A repatriation from an account to itself.
  repatriate_self : ℕ → ℕ → ℕ → BalanceStatus → Action (State N) Error (Unit {0})
  unfolding reserve unreserve
  repatriate_self token who value to_free = unreserve token who value
  repatriate_self token who value to_reserved = reserve token who value

  -- A repatriation from one account to another.
  repatriate_between : ℕ → ℕ → ℕ → ℕ → BalanceStatus → Action (State N) Error (Unit {0})
  unfolding credit_by
  repatriate_between token slashed beneficiary value status = do
    mutate_balance (token, slashed)
        (λ from. do
          account ← or_raise from balance_zero
          reserved ← or_raise (checked_sub account.reserved value) insufficient_balance
          mutate_balance (token, beneficiary) (credit_by value status)
          pure (tt, unless_dead (record account { reserved = reserved })))
    deposit_event (token_repatriated token slashed beneficiary value)

  pub repatriate_reserved : ℕ → ℕ → ℕ → ℕ → BalanceStatus → Action (State N) Error (Unit {0})
  unfolding repatriate_self repatriate_between
  repatriate_reserved token slashed beneficiary value status =
      if token == rt.native_token_id
      then (do
        held ← gets (λ s. rt.native_reserved s.native slashed)
        require (leb value held) insufficient_balance
        on_native (rt.native_repatriate slashed beneficiary value status))
      else if slashed == beneficiary
      then repatriate_self token slashed value status
      else repatriate_between token slashed beneficiary value status
