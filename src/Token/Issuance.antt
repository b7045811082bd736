-- ===== src/Token/Issuance.antt =====
-- The token registry of pallet-fuso-token: issue, create, mint, burn and the other calls.
-- Source: pallet-fuso-token/src/lib.rs, the calls, `do_mint`, `do_burn` and `create`.
pub mod Retotal
pub mod Minting
pub mod Burning
pub mod Creation
use fusotao_protocol.Base.{
  ℕ, ◌+◌, Bool, true, false, not, Option, none, some, List, ◌&&◌, ◌==◌, ltb, leb, length, bytes_eq,
  if◌then◌else◌,
}
use fusotao_protocol.Base.Words.{checked_add, checked_sub, add_in}
use fusotao_protocol.Base.Action.{
  Action, pure, raise, gets, modify, require, or_raise, lift, transactional, ◌>>=◌, ◌>>◌,
}
use fusotao_protocol.Support.{XToken, nep141, erc20, bep20, fnd10, max_decimals, symbol_of}
use fusotao_protocol.Token.Types.{
  AccountData, or_default, Error, amount_zero, balance_zero, insufficient_balance, overflow,
  invalid_decimals, invalid_token, invalid_token_name, contract_error, bad_origin, cannot_lookup,
  Origin, root, unsigned, signed, token_issued, token_minted, token_burned, Runtime, State, update,
  deposit_event, mutate_balance, mutate_token, on_native,
}
use fusotao_protocol.Token.Decimals.{unify_decimals}
use fusotao_protocol.Token.Accounts.{unless_dead, transfer_token}

-- `ensure_signed` and `ensure_root`
abbrev pub ensure_signed : {S : Type 0} → Origin → Action S Error ℕ
ensure_signed (signed who) = pure who
ensure_signed root = raise bad_origin
ensure_signed unsigned = raise bad_origin

abbrev pub ensure_root : {S : Type 0} → Origin → Action S Error (Unit {0})
ensure_root root = pure tt
ensure_root (signed who) = raise bad_origin
ensure_root unsigned = raise bad_origin

-- The description with a new total.
abbrev pub with_total : ℕ → XToken → XToken
with_total n (nep141 symbol contract total stable decimals) =
    nep141 symbol contract n stable decimals
with_total n (erc20 symbol contract total stable decimals) = erc20 symbol contract n stable decimals
with_total n (bep20 symbol contract total stable decimals) = bep20 symbol contract n stable decimals
with_total n (fnd10 symbol total) = fnd10 symbol n

module _ {N : Type 0} (rt : Runtime N) where
  -- The checks that `create` makes of a symbol.
  abbrev check_symbol : List ℕ → Action (State N) Error (Unit {0})
  check_symbol symbol = do
    require (rt.is_ascii symbol) invalid_token_name
    require (leb 2 (length symbol) && leb (length symbol) 8) invalid_token_name

  abbrev check_evm_contract : List ℕ → List ℕ → ℕ → Action (State N) Error (Unit {0})
  check_evm_contract symbol contract decimals = do
    require (leb decimals max_decimals) invalid_decimals
    check_symbol symbol
    require (length contract == 20) contract_error

  -- The validation in `create`, which registers the contract of a NEP-141 token by its name.
  register_token : ℕ → XToken → Action (State N) Error (Unit {0})
  register_token id (nep141 symbol contract total stable decimals) = do
    require (leb decimals max_decimals) invalid_decimals
    check_symbol symbol
    require (ltb (length contract) 120 && ltb 2 (length contract)) contract_error
    known ← gets (λ s. s.token_by_name contract)
    require (elim known [ none ↦ true | some other ↦ false ]) contract_error
    modify (λ s. record s {
      token_by_name = λ name. if bytes_eq name contract then some id else s.token_by_name name;
    })
  register_token id (erc20 symbol contract total stable decimals) =
      check_evm_contract symbol contract decimals
  register_token id (bep20 symbol contract total stable decimals) =
      check_evm_contract symbol contract decimals
  register_token id (fnd10 symbol total) = check_symbol symbol

  pub create : XToken → Action (State N) Error ℕ
  unfolding register_token
  create info = transactional (do
    id ← gets (λ s. s.next_token_id)
    register_token id info
    next ← lift (add_in rt.token_ids rt.overflow_checks id 1)
    modify (λ s. record s { next_token_id = next })
    modify (λ s. record s { tokens = update id (some (with_total 0 info)) s.tokens })
    pure id)

  -- The new description and the unified amount of a mint or a burn. `change` is the checked sum or
  -- difference; a FND10 token takes its own total for the amount.
  pub retotal : (ℕ → ℕ → Option ℕ) → ℕ → XToken → Action (State N) Error (XToken × ℕ)
  retotal change amount (nep141 symbol contract total stable decimals) = do
    unified ← lift (unify_decimals rt.overflow_checks amount decimals)
    total' ← or_raise (change total unified) insufficient_balance
    pure (nep141 symbol contract total' stable decimals, unified)
  retotal change amount (erc20 symbol contract total stable decimals) = do
    unified ← lift (unify_decimals rt.overflow_checks amount decimals)
    total' ← or_raise (change total unified) insufficient_balance
    pure (erc20 symbol contract total' stable decimals, unified)
  retotal change amount (bep20 symbol contract total stable decimals) = do
    unified ← lift (unify_decimals rt.overflow_checks amount decimals)
    total' ← or_raise (change total unified) insufficient_balance
    pure (bep20 symbol contract total' stable decimals, unified)
  retotal change amount (fnd10 symbol total) = pure (fnd10 symbol total, total)

  -- The change of the account in `do_mint` and in `do_burn`.
  mint_account : ℕ → Option AccountData → Action (State N) Error (Unit {0} × Option AccountData)
  mint_account unified to = do
    let account = or_default to
    free ← or_raise (checked_add account.free unified) overflow
    pure (tt, some (record account { free = free }))

  burn_account : ℕ → Option AccountData → Action (State N) Error (Unit {0} × Option AccountData)
  burn_account unified from = do
    account ← or_raise from balance_zero
    free ← or_raise (checked_sub account.free unified) insufficient_balance
    pure (tt, unless_dead (record account { free = free }))

  pub do_mint : ℕ → ℕ → ℕ → Action (State N) Error (Unit {0})
  unfolding retotal mint_account
  do_mint token beneficiary amount = transactional (
      if amount == 0
      then pure tt
      else mutate_token token (λ known. do
        info ← or_raise known invalid_token
        changed ← retotal checked_add amount info
        require (not (changed.1 == 0)) amount_zero
        mutate_balance (token, beneficiary) (mint_account changed.1)
        deposit_event (token_minted token beneficiary changed.1)
        pure (tt, some changed.0)))

  pub do_burn : ℕ → ℕ → ℕ → Action (State N) Error ℕ
  unfolding retotal burn_account
  do_burn token target amount = transactional (do
    require (not (amount == 0)) amount_zero
    mutate_token token (λ known. do
      info ← or_raise known balance_zero
      changed ← retotal checked_sub amount info
      require (not (changed.1 == 0)) amount_zero
      mutate_balance (token, target) (burn_account changed.1)
      deposit_event (token_burned token target changed.1)
      pure (tt, some changed.0))
    pure amount)

  pub mint_into : ℕ → ℕ → ℕ → Action (State N) Error (Unit {0})
  mint_into asset who amount = do_mint asset who amount

  unfoldable pub burn_from : ℕ → ℕ → ℕ → Action (State N) Error ℕ
  burn_from asset who amount = do_burn asset who amount

  pub slash : ℕ → ℕ → ℕ → Action (State N) Error ℕ
  slash asset who amount = do_burn asset who amount
