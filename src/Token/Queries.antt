-- ===== src/Token/Queries.antt =====
-- The queries of pallet-fuso-token, its two bridge lookups, and the raw access of other pallets.
-- Source: pallet-fuso-token/src/lib.rs, the impls of `fungibles::Inspect`, `Token`,
-- `TokenIdAndAssetIdProvider`, `AssetIdResourceIdProvider`, `BalanceConversion` and `ChainIdOf`.
pub mod Laws
use fusotao_protocol.Base.{
  ℕ, Bool, true, false, Option, none, some, List, ◌&&◌, ◌==◌, leb, if◌then◌else◌,
}
use fusotao_protocol.Base.Words.{u128_mod, add_in}
use fusotao_protocol.Base.Dict.{lookup}
use fusotao_protocol.Base.Result.{Result, ok, err, panicked, ok_or}
use fusotao_protocol.Base.Action.{Action, pure, raise, gets, modify, lift, ◌>>=◌, ◌>>◌}
use fusotao_protocol.Support
use fusotao_protocol.Support.{XToken, nep141, erc20, bep20, fnd10}
use fusotao_protocol.Token.Types.{
  AccountData, or_default, Error, invalid_token, issuance_fixed, Runtime, State, mutate_balance,
  on_native,
}
use fusotao_protocol.Token.Sound.{total_of}
use fusotao_protocol.Token.Decimals.{unify_decimals}
use fusotao_protocol.Token.Accounts.{unless_dead, free_balance}

module _ {N : Type 0} (rt : Runtime N) where
  pub is_stable : ℕ → State N → Bool
  is_stable token s =
      if token == rt.native_token_id
      then false
      else elim (s.tokens token) [ none ↦ false | some info ↦ Support.is_stable info ]

  pub total_issuance : ℕ → State N → ℕ
  total_issuance token s =
      if token == rt.native_token_id
      then rt.native_issuance s.native
      else elim (s.tokens token) [ none ↦ 0 | some info ↦ total_of info ]

  -- `fungibles::Inspect::balance`, which reads the pallet's own map and adds without a check.
  pub balance : ℕ → ℕ → State N → Result Error ℕ
  balance asset who s =
      let account = or_default (lookup (asset, who) s.balances) in
      add_in u128_mod rt.overflow_checks account.free account.reserved

  pub minimum_balance : ℕ → ℕ
  minimum_balance asset = 1

  pub reducible_balance : ℕ → ℕ → State N → ℕ
  reducible_balance asset who s = free_balance rt asset who s

  -- `true` for `DepositConsequence::Success`, `false` for `UnknownAsset`.
  pub can_deposit : ℕ → State N → Bool
  can_deposit asset s = elim (s.tokens asset) [ none ↦ false | some info ↦ true ]

  -- `true` for `WithdrawConsequence::Success`, `false` for `NoFunds`.
  pub can_withdraw : ℕ → ℕ → ℕ → State N → Bool
  can_withdraw asset who amount s = leb amount (free_balance rt asset who s)

  -- What `try_mutate_account` writes back, when the closure succeeds.
  write_back :
      {R : Type 0} → ℕ → AccountData → Result Error (R × AccountData) → Action (State N) Error R
  write_back who old (ok (r, account)) = on_native (rt.store_account who account) >> pure r
  write_back who old (err e) = on_native (rt.store_account who old) >> raise e
  write_back who old panicked = lift panicked

  -- The closure changes the free and the reserved balance, or fails.
  pub try_mutate_account :
      {R : Type 0}
      → ℕ
      → ℕ
      → (AccountData → Result Error (R × AccountData))
      → Action (State N) Error R
  unfolding write_back
  try_mutate_account token who f =
      if token == rt.native_token_id
      then (do
        free ← gets (λ s. rt.native_free s.native who)
        reserved ← gets (λ s. rt.native_reserved s.native who)
        let old : AccountData = record { free = free; reserved = reserved }
        write_back who old (f old))
      else mutate_balance (token, who)
          (λ entry. do
            changed ← lift (f (or_default entry))
            pure (changed.0, unless_dead changed.1))

  -- Only the native issuance can be changed.
  pub try_mutate_issuance : ℕ → (ℕ → Result Error ℕ) → Action (State N) Error (Unit {0})
  try_mutate_issuance token f =
      if token == rt.native_token_id
      then (do
        issuance ← gets (λ s. rt.native_issuance s.native)
        issuance' ← lift (f issuance)
        modify (λ s. record s { native = rt.store_issuance issuance' s.native }))
      else raise issuance_fixed

  pub to_asset_balance : ℕ → ℕ → State N → Result Error ℕ
  to_asset_balance amount token s =
      if token == rt.native_token_id then ok amount else elim (s.tokens token) [
        | none ↦ err invalid_token
        | some info ↦ elim info [
          | nep141 symbol contract total stable decimals ↦
              unify_decimals rt.overflow_checks amount decimals
          | erc20 symbol contract total stable decimals ↦
              unify_decimals rt.overflow_checks amount decimals
          | bep20 symbol contract total stable decimals ↦
              unify_decimals rt.overflow_checks amount decimals
          | fnd10 symbol total ↦ ok amount
        ]
      ]

  pub chain_id_of : XToken → ℕ
  chain_id_of (nep141 symbol contract total stable decimals) = rt.near_chain_id
  chain_id_of (erc20 symbol contract total stable decimals) = rt.eth_chain_id
  chain_id_of (bep20 symbol contract total stable decimals) = rt.bnb_chain_id
  chain_id_of (fnd10 symbol total) = rt.native_chain_id

-- The octopus bridge: from a contract to the identifier, and back for NEP-141 tokens.
module _ {N : Type 0} where
  pub try_get_asset_id : List ℕ → State N → Option ℕ
  try_get_asset_id name s = s.token_by_name name

  pub try_get_token_id : ℕ → State N → Option (List ℕ)
  try_get_token_id asset s = elim (s.tokens asset) [
    | none ↦ none
    | some info ↦ elim info [
      | nep141 symbol contract total stable decimals ↦ some contract
      | _ ↦ none
    ]
  ]

  -- The chainbridge: from a chain and a contract to the identifier.
  pub try_get_bridged_id : ℕ → List ℕ → State N → Option ℕ
  try_get_bridged_id chain contract s = s.token_by_contract chain contract
