-- ===== src/Verifier/Commands.antt =====
-- One proof: `verify_and_update`, command by command.
-- Source: pallet-fuso-verifier/src/lib.rs.
pub mod Laws
pub mod Funds
mod Tests
pub mod Root
use fusotao_protocol.Base.{
  ℕ, ◌+◌, Bool, true, false, Option, none, some, List, [], ◌∷◌, map, not, ◌==◌, ◌&&◌, ltb, length,
  if◌then◌else◌,
}
use fusotao_protocol.Base.Words.{u128_mod, add_in, checked_add}
use fusotao_protocol.Base.Result.{Result, ok, panicked, ok_or, ◌>>=◌ as ◌then◌}
use fusotao_protocol.Base.Action.{
  Action, pure, gets, modify, require, or_raise, lift, transactional, ◌>>=◌, ◌>>◌,
}
use fusotao_protocol.Base.Assoc.{find, store}
use fusotao_protocol.Verifier.Types.{
  proofs_unsatisfied, receipt_not_exists, unsupported_quote_currency, overflow, TokenMutation,
  ClearingResult,
}
use fusotao_protocol.Verifier.Leaf.{MerkleLeaf}
use fusotao_protocol.Verifier.Accounts.{reserve_for_authorizing}
use fusotao_protocol.Verifier.Ask.{verify_ask_limit}
use fusotao_protocol.Verifier.Bid.{verify_bid_limit}
use fusotao_protocol.Verifier.Cancel.{verify_cancel}
use fusotao_protocol.Verifier.Moves.{
  check_fee, verify_transfer_in, verify_transfer_out, verify_reject_transfer_out,
}
use fusotao_protocol.Verifier.State.{
  Failure, of_pallet, Trade, Command, ask_limit, bid_limit, cancel, transfer_out, transfer_in,
  reject_transfer_out, reject_transfer_in, Proof, Receipt, authorize, revoke, revoke_with_callback,
  Dominator, State, Config, reserve_for_authorizing_stash, checked, on_native,
}
use fusotao_protocol.Verifier.Reserving.{put_reserve, unreserve, clear}
use fusotao_protocol.Verifier.Seasons.{current_season, put_profit}
use fusotao_protocol.Verifier.Hosting.{put_receipt}

-- Is it a receipt for the amount of the currency? A revocation, and an authorization.
unfoldable pub is_revoke_of : ℕ → ℕ → Receipt → Bool
is_revoke_of currency amount (revoke id value at) = (id == currency) && (value == amount)
is_revoke_of currency amount (revoke_with_callback id value at cb) =
    (id == currency) && (value == amount)
is_revoke_of currency amount (authorize id value at) = false

unfoldable pub is_authorize_of : ℕ → ℕ → Receipt → Bool
is_authorize_of currency amount (authorize id value at) = (id == currency) && (value == amount)
is_authorize_of currency amount (revoke id value at) = false
is_authorize_of currency amount (revoke_with_callback id value at cb) = false

abbrev pub is_authorize : Receipt → Bool
is_authorize (authorize id value at) = true
is_authorize (revoke id value at) = false
is_authorize (revoke_with_callback id value at cb) = false

-- `users_mutation.last()`
unfoldable pub last_mutation : List TokenMutation → Option TokenMutation
last_mutation [] = none
last_mutation (m ∷ []) = some m
last_mutation (m ∷ n ∷ ms) = last_mutation (n ∷ ms)

module _ {N : Type 0} (cf : Config N) (dominator_id : ℕ) where
  abbrev pub plus_in : ℕ → ℕ → Result Failure ℕ
  plus_in = add_in u128_mod cf.runtime.overflow_checks

  -- The Merkle proof leads from the leaves to the root.
  abbrev pub require_root :
      Proof → List ℕ → (MerkleLeaf → List ℕ) → Action (State N) Failure (Unit {0})
  require_root proof root value = do
    r ←
        or_raise
          (cf.smt_verify proof.merkle_proof root
            (map (λ leaf. (cf.hashing leaf.key, value leaf)) proof.leaves))
          (of_pallet proofs_unsatisfied)
    require r (of_pallet proofs_unsatisfied)

  -- The loop over the users of a match.
  pub clear_users : ℕ → ℕ → ℕ → List TokenMutation → Action (State N) Failure (Unit {0})
  clear_users base quote now [] = pure tt
  clear_users base quote now (d ∷ ds) = do
    clear cf d.who dominator_id base d.base_value
    clear cf d.who dominator_id quote d.quote_value
    on_native (cf.save_trading d.who d.matched_volume now)
    clear_users base quote now ds

  -- The trade of the taker, whose mutation is the last.
  abbrev pub take_trade : ℕ → Trade → Option TokenMutation → Result Failure Trade
  take_trade base trade none = ok trade
  take_trade base trade (some t) = plus_in trade.amount t.matched_amount then λ amount.
      plus_in trade.vol t.matched_volume then λ vol.
      ok (record trade { token_id = base; amount = amount; vol = vol })

  -- The fees: in quote to the profit of the season, in base to the dominator.
  pub settle_fees : ℕ → ℕ → ℕ → ClearingResult → Action (State N) Failure (Unit {0})
  settle_fees base quote season cr = do
    put_profit cf dominator_id season quote cr.quote_fee
    if not (cr.base_fee == 0)
        then on_native (
            cf.asset.try_mutate_account base dominator_id
              (λ b. plus_in b.0 cr.base_fee then λ free. ok (free, b.1)))
        else pure tt

  -- A match of more than the taker is cleared, and traded.
  pub settle_users : ℕ → ℕ → ℕ → Trade → List TokenMutation → Action (State N) Failure Trade
  settle_users base quote now trade mutations =
      if ltb 1 (length mutations)
      then (do
        clear_users base quote now mutations
        lift (take_trade base trade (last_mutation mutations)))
      else pure trade

  -- What follows an accepted ask or bid.
  pub settle_match : ℕ → ℕ → ℕ → ℕ → Trade → ClearingResult → Action (State N) Failure Trade
  settle_match base quote now season trade cr = do
    traded ← settle_users base quote now trade cr.users_mutation
    settle_fees base quote season cr
    pure traded

  abbrev pub require_stable : ℕ → Action (State N) Failure (Unit {0})
  require_stable quote = do
    stable ← gets (λ s. cf.asset.is_stable quote s.native)
    require stable (of_pallet unsupported_quote_currency)

  -- The callback of a revocation; its error is only logged.
  abbrev pub run_callback : ℕ → Receipt → Action (State N) Failure (Unit {0})
  run_callback user (revoke_with_callback id value at cb) = modify (cf.dispatch cb user)
  run_callback user (revoke id value at) = pure tt
  run_callback user (authorize id value at) = pure tt

  -- The receipt of a user.
  abbrev pub open_receipt : ℕ → Action (State N) Failure Receipt
  open_receipt user = do
    r ← gets (λ s. s.receipts dominator_id user)
    or_raise r (of_pallet receipt_not_exists)

  -- The withdrawal up to the callback.
  pub release : Proof → ℕ → ℕ → Action (State N) Failure Receipt
  release proof currency amount = do
    r ← open_receipt proof.user_id
    require (is_revoke_of currency amount r) (of_pallet receipt_not_exists)
    lift (checked (verify_transfer_out cf.runtime currency amount proof.user_id proof.leaves))
    unreserve cf reserve_for_authorizing proof.user_id currency amount dominator_id
    put_receipt dominator_id proof.user_id none
    pure r

  pub accept_transfer_out : Proof → ℕ → ℕ → Action (State N) Failure (Unit {0})
  accept_transfer_out proof currency amount = do
    r ← release proof currency amount
    run_callback proof.user_id r

  unfoldable pub accept_transfer_in : Proof → ℕ → ℕ → Action (State N) Failure (Unit {0})
  accept_transfer_in proof currency amount = do
    r ← open_receipt proof.user_id
    require (is_authorize_of currency amount r) (of_pallet receipt_not_exists)
    lift (checked (verify_transfer_in cf.runtime currency amount proof.user_id proof.leaves))
    put_reserve reserve_for_authorizing_stash proof.user_id currency dominator_id 0
    ov ← gets (λ s. s.reserves reserve_for_authorizing proof.user_id currency dominator_id)
    new ← or_raise (checked_add ov amount) (of_pallet overflow)
    put_reserve reserve_for_authorizing proof.user_id currency dominator_id new
    put_receipt dominator_id proof.user_id none

  pub accept_reject_transfer_out : Proof → ℕ → ℕ → Action (State N) Failure (Unit {0})
  accept_reject_transfer_out proof currency amount = do
    r ← open_receipt proof.user_id
    require (is_revoke_of currency amount r) (of_pallet receipt_not_exists)
    lift
        (checked (verify_reject_transfer_out cf.runtime currency amount proof.user_id proof.leaves))
    put_receipt dominator_id proof.user_id none

  -- Without a receipt there is nothing to reject.
  abbrev pub reject_authorization : ℕ → Option Receipt → Action (State N) Failure (Unit {0})
  reject_authorization user none = pure tt
  reject_authorization user (some r) = do
    require (is_authorize r) (of_pallet receipt_not_exists)
    put_receipt dominator_id user none

  unfoldable pub accept_reject_transfer_in : Proof → Action (State N) Failure (Unit {0})
  accept_reject_transfer_in proof = do
    r ← gets (λ s. s.receipts dominator_id proof.user_id)
    reject_authorization proof.user_id r

  -- The match on the command; a rejection does not step forward.
  unfoldable pub run_command :
      Proof → ℕ → ℕ → Trade → Command → Action (State N) Failure (Bool × Trade)
  run_command proof now season trade (ask_limit price amount maker_fee taker_fee base quote) = do
    lift (checked (check_fee cf.runtime taker_fee maker_fee))
    require_stable quote
    reserves ← gets (λ s. s.reserves)
    cr ← lift (
        checked (
          verify_ask_limit cf.runtime reserves dominator_id base quote proof.leaves price amount
            maker_fee taker_fee proof.maker_account_delta proof.maker_page_delta))
    traded ← settle_match base quote now season trade cr
    pure (true, traded)
  run_command proof now season trade (bid_limit price amount maker_fee taker_fee base quote) = do
    lift (checked (check_fee cf.runtime taker_fee maker_fee))
    require_stable quote
    reserves ← gets (λ s. s.reserves)
    cr ← lift (
        checked (
          verify_bid_limit cf.runtime reserves dominator_id base quote proof.leaves price amount
            maker_fee taker_fee proof.maker_account_delta proof.maker_page_delta))
    traded ← settle_match base quote now season trade cr
    pure (true, traded)
  run_command proof now season trade (cancel base quote) = do
    lift (checked (verify_cancel cf.runtime base quote proof.leaves proof.user_id))
    pure (true, trade)
  run_command proof now season trade (transfer_out currency amount) = do
    accept_transfer_out proof currency amount
    pure (true, trade)
  run_command proof now season trade (transfer_in currency amount) = do
    accept_transfer_in proof currency amount
    pure (true, trade)
  run_command proof now season trade (reject_transfer_out currency amount) = do
    accept_reject_transfer_out proof currency amount
    pure (false, trade)
  run_command proof now season trade reject_transfer_in = do
    accept_reject_transfer_in proof
    pure (false, trade)

  -- `Dominators::mutate`, where a missing dominator panics.
  abbrev pub present : Option Dominator → Result Failure Dominator
  present none = panicked
  present (some d) = ok d

  unfoldable pub step_forward : Proof → ℕ → Action (State N) Failure (Unit {0})
  step_forward proof now = do
    known ← gets (λ s. find dominator_id s.dominators)
    d ← lift (present known)
    modify (λ s. record s {
      dominators =
          store dominator_id
            (record d { merkle_root = proof.root; sequence = (proof.event_id, now) }) s.dominators;
    })

  unfoldable pub verify_and_update : List ℕ → ℕ → Proof → Action (State N) Failure Trade
  verify_and_update known_root claim_at proof = transactional (do
    require_root proof known_root (λ leaf. leaf.old_v)
    require_root proof proof.root (λ leaf. leaf.new_v)
    now ← gets (λ s. s.now)
    season ← lift (current_season cf now claim_at)
    done ←
        run_command proof now season
          (record { token_id = 0; root = known_root; amount = 0; vol = 0 }) proof.cmd
    if done.0
        then (do step_forward proof now; pure (record done.1 { root = proof.root }))
        else pure done.1)
