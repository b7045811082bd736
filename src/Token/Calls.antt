-- ===== src/Token/Calls.antt =====
-- The dispatchable calls of pallet-fuso-token.
-- Source: pallet-fuso-token/src/lib.rs, `#[pallet::call]`.
pub mod Effects
use fusotao_protocol.Base.{
  ℕ, Bool, true, false, not, Option, none, some, List, ◌&&◌, ◌==◌, bytes_eq, if◌then◌else◌,
}
use fusotao_protocol.Base.Action.{
  Action, pure, raise, gets, modify, require, or_raise, lift, transactional, ◌>>=◌, ◌>>◌,
}
use fusotao_protocol.Support.{XToken, nep141, erc20, bep20, fnd10, symbol_of}
use fusotao_protocol.Token.Types.{
  Error, balance_zero, invalid_token, bad_origin, cannot_lookup, Origin, token_issued, Runtime,
  State, deposit_event, mutate_token, on_native,
}
use fusotao_protocol.Token.Accounts.{transfer_token}
use fusotao_protocol.Token.Issuance.{ensure_signed, ensure_root, create}

-- The description with its stable mark set; there is none on a FND10 token.
abbrev pub marked : XToken → Option XToken
marked (nep141 symbol contract total stable decimals) =
    some (nep141 symbol contract total true decimals)
marked (erc20 symbol contract total stable decimals) =
    some (erc20 symbol contract total true decimals)
marked (bep20 symbol contract total stable decimals) =
    some (bep20 symbol contract total true decimals)
marked (fnd10 symbol total) = none

module _ {N : Type 0} (rt : Runtime N) where
  pub issue : Origin → XToken → Action (State N) Error (Unit {0})
  issue origin info = transactional (do
    who ← ensure_signed origin
    on_native (rt.native_burn_from who rt.burn_when_issue)
    id ← create rt info
    deposit_event (token_issued id (symbol_of info)))

  pub mark_stable : Origin → ℕ → Action (State N) Error (Unit {0})
  mark_stable origin id = do
    ensure_root origin
    mutate_token id (λ known. do
      info ← or_raise known invalid_token
      info' ← or_raise (marked info) invalid_token
      pure (tt, some info'))

  pub transfer : Origin → ℕ → ℕ → ℕ → Action (State N) Error (Unit {0})
  transfer origin token target amount = do
    who ← ensure_signed origin
    require (not (amount == 0)) balance_zero
    target' ← or_raise (rt.lookup_account target) cannot_lookup
    transfer_token rt who token amount target' >>= λ _. pure tt

  pub associate_token : Origin → ℕ → List ℕ → ℕ → Action (State N) Error (Unit {0})
  associate_token origin chain_id contract_id token_id = do
    require (rt.is_admin origin) bad_origin
    modify (λ s. record s {
      token_by_contract = λ chain contract.
          if (chain == chain_id) && bytes_eq contract contract_id
          then some token_id
          else s.token_by_contract chain contract;
    })
