-- ===== src/Handler/Incoming.antt =====
-- Tokens that come back over the bridge, and the calls of the admin.
-- Source: pallet-chainbridge-handler/src/lib.rs.
use fusotao_protocol.Base.{ℕ, Bool, Option, none, some, List, ◌==◌, if◌then◌else◌}
use fusotao_protocol.Base.Result.{ok}
use fusotao_protocol.Base.Action.{Action, pure, gets, modify, raise, or_raise, lift, ◌>>=◌, ◌>>◌}
use fusotao_protocol.Base.Assoc.{at_1}
use fusotao_protocol.Support.ResourceId.{decode_resource_id}
use fusotao_protocol.Token.Types.{Origin}
use fusotao_protocol.Verifier.Hosting.{authorize_to}
use fusotao_protocol.Handler.Types.{
  as_invalid, Error, invalid_resource_id, bad_origin, Rest, Config, ensure_root, ensure_bridge,
  ignored, on_tokens, is_native_resource,
}

module _ {N : Type 0} (cf : Config N) where
  -- `T::Fungibles` of the native token.
  abbrev native_token : ℕ
  native_token = cf.fungibles.native_token_id

  unfoldable pub do_unlock : ℕ → ℕ → ℕ → Action (Rest N) Error (Unit {0})
  do_unlock sender to amount = do
    moved ← on_tokens (cf.fungibles.transfer_token sender native_token amount to)
    pure tt

  -- `T::AssetIdByName::try_get_asset_id`
  abbrev asset_of : ℕ × ℕ × List ℕ → Action (Rest N) Error ℕ
  asset_of (chain_id, associated, contract) = do
    token ← gets (cf.bridge.asset_id_by_name chain_id contract)
    or_raise token invalid_resource_id

  unfoldable pub do_mint_assets : ℕ → ℕ → List ℕ → Action (Rest N) Error (Unit {0})
  do_mint_assets who amount r_id = do
    decoded ← lift (decode_resource_id r_id)
    token_id ← asset_of decoded
    on_tokens (cf.fungibles.mint_into token_id who amount)

  -- `verifier::Pallet::<T>::authorize_to`, whose error is only logged.
  abbrev pub try_authorize : ℕ → ℕ → ℕ → ℕ → Action (Rest N) Error (Unit {0})
  try_authorize to dominator token amount s =
      let (r, v) = ignored (authorize_to cf.verifier to dominator token amount s.verifier) in
      (r, record s { verifier = v })

  -- The amount in the token's own decimals.
  abbrev converted : ℕ → ℕ → Action (Rest N) Error ℕ
  converted amount token = do
    b ← gets (λ s. cf.fungibles.to_asset_balance amount token s.verifier.native)
    lift (as_invalid b)

  -- The dominator of the tag is given what came in.
  unfoldable pub host_native : ℕ → ℕ → Option ℕ → Action (Rest N) Error (Unit {0})
  host_native to amount none = pure tt
  host_native to amount (some dominator) = do
    b ← converted amount native_token
    try_authorize to dominator cf.verifier.asset.native_token_id b

  unfoldable pub host_token : ℕ → ℕ → ℕ × ℕ × List ℕ → Option ℕ → Action (Rest N) Error (Unit {0})
  host_token to amount decoded none = pure tt
  host_token to amount decoded (some dominator) = do
    token ← asset_of decoded
    b ← converted amount token
    try_authorize to dominator token b

  unfoldable pub receive_native : ℕ → ℕ → ℕ → List ℕ → Action (Rest N) Error (Unit {0})
  receive_native source to amount r_id = do
    do_unlock source to amount
    decoded ← lift (decode_resource_id r_id)
    dominator ← gets (λ s. s.associated_dominator decoded.1)
    host_native to amount dominator

  unfoldable pub receive_token : ℕ → ℕ → List ℕ → Action (Rest N) Error (Unit {0})
  receive_token to amount r_id = do
    do_mint_assets to amount r_id
    decoded ← lift (decode_resource_id r_id)
    dominator ← gets (λ s. s.associated_dominator decoded.1)
    host_token to amount decoded dominator

  -- An account that has sent nothing yet is given something for its fees, if the donor can.
  unfoldable pub donate : ℕ → Action (Rest N) Error (Unit {0})
  donate to s =
      let n = s.verifier.native in
      let give =
        cf.fungibles.transfer_token cf.donor_account native_token cf.donation_for_agent to in
      let given = if cf.account_nonce to n == 0 then ignored (give n) else (ok tt, n) in
      (given.0, record s { verifier = record s.verifier { native = given.1 } })

  unfoldable pub transfer_in : Origin → ℕ → ℕ → List ℕ → Action (Rest N) Error (Unit {0})
  transfer_in origin to amount r_id = do
    source ← ensure_bridge cf origin
    native ← lift (is_native_resource cf r_id)
    (if native then receive_native source to amount r_id else receive_token to amount r_id)
    donate to

  unfoldable pub native_limit : Origin → Bool → Action (Rest N) Error (Unit {0})
  native_limit origin value = ensure_root origin >> modify (λ s. record s { native_check = value })

  pub set_associated_dominator : ℕ → ℕ → Action (Rest N) Error (Unit {0})
  set_associated_dominator idx dominator =
      modify
        (λ s. record s { associated_dominator = at_1 idx (some dominator) s.associated_dominator })

  -- `AdminOrigin::ensure_origin`
  pub ensure_admin : Origin → Action (Rest N) Error (Unit {0})
  ensure_admin origin s = if cf.bridge.is_admin origin then (ok tt, s) else raise bad_origin s

  unfoldable pub associate_dominator : Origin → ℕ → ℕ → Action (Rest N) Error (Unit {0})
  associate_dominator origin associate_id dominator =
      ensure_admin origin >> set_associated_dominator associate_id dominator

  -- For a proposal that only shows that a call was made: nothing of it is read.
  unfoldable pub remark : Origin → List ℕ → List ℕ → List ℕ → Action (Rest N) Error (Unit {0})
  remark origin message depositer r_id = do source ← ensure_bridge cf origin; pure tt
