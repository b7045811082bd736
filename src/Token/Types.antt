-- ===== src/Token/Types.antt =====
-- The state, the errors, the events and the parameters of pallet-fuso-token.
-- Source: pallet-fuso-token/src/lib.rs, its storage items, `Error`, `Event` and `Config`.
use fusotao_protocol.Base.{ℕ, Bool, Option, none, some, List, [], ◌∷◌, ◌++◌, ◌==◌, if◌then◌else◌}
use fusotao_protocol.Base.Dict.{Dict, Key, lookup, put}
use fusotao_protocol.Base.Action.{Action, pure, gets, modify, ◌>>=◌, ◌>>◌}
use fusotao_protocol.Support.{XToken}

pub record AccountData : Type 0 where
  pub free : ℕ
  pub reserved : ℕ

-- `TokenAccountData::default()`
abbrev pub empty_account : AccountData
empty_account = record { free = 0; reserved = 0 }

abbrev pub or_default : Option AccountData → AccountData
or_default none = empty_account
or_default (some account) = account

pub data BalanceStatus : Type 0 where
  to_free to_reserved : BalanceStatus

-- The pallet's errors, then those that it passes on: of the origin, of the address lookup, the
-- textual one of `try_mutate_issuance`, and pallet_balances' by their index.
pub data Error : Type 0 where
  amount_zero balance_low balance_zero invalid_token_name invalid_token : Error
  insufficient_balance overflow too_many_reserves invalid_decimals contract_error : Error
  bad_origin cannot_lookup issuance_fixed : Error
  balances_error : ℕ → Error

pub data Event : Type 0 where
  token_issued : ℕ → List ℕ → Event
  token_transfered : ℕ → ℕ → ℕ → ℕ → Event
  token_reserved token_unreserved token_minted token_burned : ℕ → ℕ → ℕ → Event
  token_repatriated : ℕ → ℕ → ℕ → ℕ → Event

pub data Origin : Type 0 where
  root unsigned : Origin
  signed : ℕ → Origin

-- What the pallet takes from outside: its configuration, and pallet_balances over a state `N`.
-- `token_ids` is the number of values of the type `TokenId`; `overflow_checks` is the build's.
-- `store_account` is the write that ends pallet_balances' `mutate_account`.
pub record Runtime (N : Type 0) : Type 0 where
  pub native_token_id : ℕ
  pub near_chain_id : ℕ
  pub eth_chain_id : ℕ
  pub bnb_chain_id : ℕ
  pub native_chain_id : ℕ
  pub burn_when_issue : ℕ
  pub token_ids : ℕ
  pub overflow_checks : Bool
  pub is_admin : Origin → Bool
  pub lookup_account : ℕ → Option ℕ
  pub is_ascii : List ℕ → Bool
  pub native_free : N → ℕ → ℕ
  pub native_reserved : N → ℕ → ℕ
  pub native_issuance : N → ℕ
  pub native_can_reserve : N → ℕ → ℕ → Bool
  pub native_transfer : ℕ → ℕ → ℕ → Action N Error (Unit {0})
  pub native_burn_from : ℕ → ℕ → Action N Error (Unit {0})
  pub native_reserve : ℕ → ℕ → Action N Error (Unit {0})
  pub native_unreserve : ℕ → ℕ → N → N
  pub native_repatriate : ℕ → ℕ → ℕ → BalanceStatus → Action N Error (Unit {0})
  pub store_account : ℕ → AccountData → Action N Error (Unit {0})
  pub store_issuance : ℕ → N → N

-- The storage. A key of `balances` is a token and an account.
pub record State (N : Type 0) : Type 0 where
  pub balances : Dict AccountData
  pub tokens : ℕ → Option XToken
  pub next_token_id : ℕ
  pub token_by_name : List ℕ → Option ℕ
  pub token_by_contract : ℕ → List ℕ → Option ℕ
  pub events : List Event
  pub native : N

-- A function changed at one number.
abbrev pub update : {A : Type 0} → ℕ → A → (ℕ → A) → ℕ → A
update k v f j = if j == k then v else f j

module _ {N : Type 0} where
  abbrev pub deposit_event : Event → Action (State N) Error (Unit {0})
  deposit_event e = modify (λ s. record s { events = s.events ++ e ∷ [] })

  -- `Balances::try_mutate_exists`: the closure has the old entry, and what it leaves is written
  -- when it succeeds. `none` removes the entry.
  abbrev pub mutate_balance :
      {A : Type 0}
      → Key
      → (Option AccountData → Action (State N) Error (A × Option AccountData))
      → Action (State N) Error A
  mutate_balance k f = do
    old ← gets (λ s. lookup k s.balances)
    result ← f old
    modify (λ s. record s { balances = put k result.1 s.balances })
    pure result.0

  -- `Tokens::try_mutate_exists`
  abbrev pub mutate_token :
      {A : Type 0}
      → ℕ
      → (Option XToken → Action (State N) Error (A × Option XToken))
      → Action (State N) Error A
  mutate_token t f = do
    old ← gets (λ s. s.tokens t)
    result ← f old
    modify (λ s. record s { tokens = update t result.1 s.tokens })
    pure result.0

  -- A call of pallet_balances.
  abbrev pub on_native : {A : Type 0} → Action N Error A → Action (State N) Error A
  on_native m s = let (r, n) = m s.native in (r, record s { native = n })
