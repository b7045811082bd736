-- ===== src/Handler/Outgoing.antt =====
-- Tokens that leave the chain: `transfer_out`.
-- Source: pallet-chainbridge-handler/src/lib.rs.
pub mod Locked
pub mod Atomic
use fusotao_protocol.Base.{ℕ, ◌-◌, ◌/◌, ◌%◌, Bool, true, false, List, not, ◌==◌, ltb, if◌then◌else◌}
use fusotao_protocol.Base.Words.{u128_mod, add_in, mul_in}
use fusotao_protocol.Base.Result.{Result, ok, err, ok_or, ensure, ◌>>=◌ as ◌then◌, ◌>>◌ as ◌next◌}
use fusotao_protocol.Base.Action.{
  Action, pure, gets, require, or_raise, lift, transactional, ◌>>=◌, ◌>>◌,
}
use fusotao_protocol.Support.ResourceId.{decode_resource_id}
use fusotao_protocol.Token.Types.{Origin}
use fusotao_protocol.Bridge.Admin.{chain_whitelisted}
use fusotao_protocol.Bridge.Transfers.{transfer_fungible}
use fusotao_protocol.Handler.Types.{
  Error, invalid_transfer, invalid_resource_id, over_transfer_limit, less_than_bridging_threshold,
  Rest, Chain, Config, quintill, ensure_signed, on_tokens, on_rest, passed_on, is_native_resource,
}

module _ {N : Type 0} (cf : Config N) where
  -- Two dollars in the token, or nothing while there is no price.
  unfoldable pub calculate_bridging_fee : ℕ → Rest N → Result Error ℕ
  calculate_bridging_fee token_id s =
      let price = cf.get_price token_id s.verifier.native in
      let usd = s.bridging_fee in
      if price == 0
      then ok 0
      else (mul_in u128_mod cf.bridge.overflow_checks (usd / price) quintill then λ whole.
          add_in u128_mod cf.bridge.overflow_checks whole (cf.from_rational (usd % price) price))

  -- The fee, which the amount has to exceed twice.
  unfoldable pub charge : ℕ → ℕ → Rest N → Result Error ℕ
  charge token_id amount s = calculate_bridging_fee token_id s then λ fee.
      add_in u128_mod cf.bridge.overflow_checks fee fee then λ twice.
      ensure (ltb twice amount) less_than_bridging_threshold next ok fee

  -- With the check on, a third of the maximum is the most that may be locked.
  unfoldable pub check_limit : ℕ → Rest N → Result Error (Unit {0})
  check_limit amount s =
      let held =
        cf.fungibles.free_balance cf.fungibles.native_token_id cf.bridge_account
          s.verifier.native in
      if s.native_check
      then (add_in u128_mod cf.bridge.overflow_checks held amount then λ total.
          ensure (not (ltb (cf.native_token_max_value / 3) total)) over_transfer_limit)
      else ok tt

  -- `T::Fungibles::transfer_token`
  abbrev pub move_token : ℕ → ℕ → ℕ → ℕ → Action (Chain N) Error ℕ
  move_token who token amount to =
      on_rest (on_tokens (cf.fungibles.transfer_token who token amount to))

  -- `bridge::Pallet::<T>::transfer_fungible`
  abbrev pub announce : ℕ → List ℕ → List ℕ → ℕ → Action (Chain N) Error (Unit {0})
  announce dest_id r_id recipient amount s =
      let (r, s') = transfer_fungible cf.bridge dest_id r_id recipient amount s in (passed_on r, s')

  unfoldable pub do_lock : ℕ → ℕ → List ℕ → List ℕ → ℕ → Action (Chain N) Error (Unit {0})
  do_lock sender amount r_id recipient dest_id = transactional (do
    limited ← gets (λ s. check_limit amount s.rest)
    lift limited
    charged ← gets (λ s. charge cf.fungibles.native_token_id amount s.rest)
    fee ← lift charged
    paid ← move_token sender cf.fungibles.native_token_id fee cf.treasury_account
    locked ← move_token sender cf.fungibles.native_token_id (amount - fee) cf.bridge_account
    announce dest_id r_id recipient (amount - fee))

  unfoldable pub do_burn_assets : ℕ → ℕ → List ℕ → List ℕ → ℕ → Action (Chain N) Error (Unit {0})
  do_burn_assets who amount r_id recipient dest_id = transactional (do
    decoded ← lift (decode_resource_id r_id)
    token ← gets (λ s. cf.bridge.asset_id_by_name decoded.0 decoded.2 s.rest)
    token_id ← or_raise token invalid_resource_id
    charged ← gets (λ s. charge token_id amount s.rest)
    fee ← lift charged
    paid ← move_token who token_id fee cf.treasury_account
    burned ← on_rest (on_tokens (cf.fungibles.burn_from token_id who (amount - fee)))
    announce dest_id r_id recipient (amount - fee))

  unfoldable pub transfer_out : Origin → ℕ → List ℕ → List ℕ → ℕ → Action (Chain N) Error (Unit {0})
  transfer_out origin amount r_id recipient dest_id = do
    source ← ensure_signed origin
    known ← gets (chain_whitelisted dest_id)
    require known invalid_transfer
    native ← lift (is_native_resource cf r_id)
    if native
        then do_lock source amount r_id recipient dest_id
        else do_burn_assets source amount r_id recipient dest_id
