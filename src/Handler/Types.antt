-- ===== src/Handler/Types.antt =====
-- The storage, the errors and the configuration of pallet-chainbridge-handler.
-- Source: pallet-chainbridge-handler/src/lib.rs; pallet-chainbridge/src/lib.rs, `EnsureBridge`.
use fusotao_protocol.Base.{ℕ, ◌*◌, ◌^◌, Bool, Option, List, ◌==◌, ◌&&◌, bytes_eq, if◌then◌else◌}
use fusotao_protocol.Base.Result.{Result, ok, err, panicked, ◌>>=◌ as ◌then◌}
use fusotao_protocol.Base.Action.{Action, pure, raise}
use fusotao_protocol.Support.ResourceId.{decode_resource_id}
use fusotao_protocol.Token.Types.{Origin, root, unsigned, signed}
use fusotao_protocol.Bridge.Types as Bridge
use fusotao_protocol.Token.Types as Tokens
use fusotao_protocol.Verifier.State as Verifier

-- The pallet's errors, the one of the origin checks, and those of the bridge and of other pallets.
pub data Error : Type 0 where
  invalid_transfer invalid_token_id invalid_resource_id wrong_asset_id : Error
  invalid_token_name over_transfer_limit asset_already_exists invalid_call_message : Error
  register_agent_failed depositer_not_found price_overflow : Error
  less_than_bridging_threshold bad_origin : Error
  of_bridge : Bridge.Error → Error
  of_tokens : Tokens.Error → Error
  foreign : ℕ → Error

-- What the bridge's proposals act on: the storage of this pallet, and that of the verifier, which
-- has the storage `N` of the other pallets in it.
pub record Rest (N : Type 0) : Type 0 where
  pub native_check : Bool
  pub bridging_fee : ℕ
  pub associated_dominator : ℕ → Option ℕ
  pub verifier : Verifier.State N

-- The storage that a transfer out of the chain acts on.
abbrev pub Chain : Type 0 → Type 0
Chain N = Bridge.State (Rest N)

-- `T::Fungibles`, as far as the pallet calls it, and the conversion of balances.
pub record Fungibles (N : Type 0) : Type 0 where
  pub native_token_id : ℕ
  pub free_balance : ℕ → ℕ → N → ℕ
  pub transfer_token : ℕ → ℕ → ℕ → ℕ → Action N Error ℕ
  pub burn_from : ℕ → ℕ → ℕ → Action N Error ℕ
  pub mint_into : ℕ → ℕ → ℕ → Action N Error (Unit {0})
  pub to_asset_balance : ℕ → ℕ → N → Result Error ℕ

-- The configuration. `from_rational` is `Perquintill::from_rational` with its `deconstruct`.
pub record Config (N : Type 0) : Type 0 where
  pub bridge : Bridge.Runtime (Rest N)
  pub verifier : Verifier.Config N
  pub fungibles : Fungibles N
  pub get_price : ℕ → N → ℕ
  pub from_rational : ℕ → ℕ → ℕ
  pub native_token_max_value : ℕ
  pub bridge_account : ℕ
  pub treasury_account : ℕ
  pub donor_account : ℕ
  pub donation_for_agent : ℕ
  pub account_nonce : ℕ → N → ℕ

abbrev pub quintill : ℕ
quintill = 10 ^ 18

-- `DefaultBridgingFee`
abbrev pub default_bridging_fee : ℕ
default_bridging_fee = 2 * quintill

abbrev pub ensure_signed : {S : Type 0} → Origin → Action S Error ℕ
ensure_signed (signed who) = pure who
ensure_signed root = raise bad_origin
ensure_signed unsigned = raise bad_origin

abbrev pub ensure_root : {S : Type 0} → Origin → Action S Error (Unit {0})
ensure_root root = pure tt
ensure_root unsigned = raise bad_origin
ensure_root (signed who) = raise bad_origin

-- A call whose error is ignored.
abbrev pub ignored : {S E A : Type 0} → Result E A × S → Result Error (Unit {0}) × S
ignored (ok a, s) = (ok tt, s)
ignored (err e, s) = (ok tt, s)
ignored (panicked, s) = (panicked, s)

module _ {N A : Type 0} where
  -- A call of the verifier or of the tokens, on the storage that it is a part of.
  abbrev pub on_verifier : Action (Verifier.State N) Error A → Action (Rest N) Error A
  on_verifier m s = let (r, v) = m s.verifier in (r, record s { verifier = v })

  abbrev pub on_tokens : Action N Error A → Action (Rest N) Error A
  on_tokens m s =
      let (r, n) = m s.verifier.native in
      (r, record s { verifier = record s.verifier { native = n } })

  abbrev pub on_rest : Action (Rest N) Error A → Action (Chain N) Error A
  on_rest m s = let (r, rest) = m s.rest in (r, record s { rest = rest })

-- What is reported for a balance that cannot be converted, whatever the reason.
abbrev pub as_invalid : {A : Type 0} → Result Error A → Result Error A
as_invalid (ok a) = ok a
as_invalid (err e) = err invalid_resource_id
as_invalid panicked = panicked

-- An error of the bridge, as the error of the call.
abbrev pub passed_on : {A : Type 0} → Result Bridge.Error A → Result Error A
passed_on (ok a) = ok a
passed_on (err e) = err (of_bridge e)
passed_on panicked = panicked

module _ {N : Type 0} (cf : Config N) where
  -- `EnsureBridge`: only the account of the bridge itself.
  abbrev pub ensure_bridge : {S : Type 0} → Origin → Action S Error ℕ
  ensure_bridge (signed who) = if who == cf.bridge_account then pure who else raise bad_origin
  ensure_bridge root = raise bad_origin
  ensure_bridge unsigned = raise bad_origin

  -- The chain and the contract decide, and not the tag between them.
  unfoldable pub is_native_resource : List ℕ → Result Error Bool
  is_native_resource r_id = decode_resource_id r_id then λ given.
      decode_resource_id cf.bridge.native_resource_id then λ native.
      ok ((native.0 == given.0) && bytes_eq given.2 native.2)
