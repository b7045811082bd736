-- ===== src/Verifier/Hosting.antt =====
-- Tokens that are hosted with a dominator: `authorize_to` and `revoke_from`, and their calls.
-- Source: pallet-fuso-verifier/src/lib.rs.
pub mod Laws
pub mod Exit
mod Tests
use fusotao_protocol.Base.{ℕ, Bool, Option, none, some, not, ◌==◌, ltb, if◌then◌else◌}
use fusotao_protocol.Base.Words.{checked_add}
use fusotao_protocol.Base.Action.{
  Action, pure, gets, modify, require, or_raise, transactional, ◌>>=◌, ◌>>◌,
}
use fusotao_protocol.Base.Assoc.{at_2}
use fusotao_protocol.Token.Types.{Origin}
use fusotao_protocol.Verifier.Types.{
  dominator_inactive, receipt_already_exists, insufficient_balance, dominator_status_invalid,
  overflow,
}
use fusotao_protocol.Verifier.Accounts.{reserve_for_authorizing, has_authorized_morethan}
use fusotao_protocol.Verifier.State.{
  Failure, of_pallet, cannot_lookup, Receipt, authorize, revoke, revoke_with_callback, State,
  Config, token_hosted, token_revoked, dominator_registered, dominator_active, dominator_evicted,
  reserve_for_authorizing_stash, deposit_event, ensure_signed,
}
use fusotao_protocol.Verifier.Reserving.{put_reserve, reserve, unreserve}
use fusotao_protocol.Verifier.Stakes.{get_dominator}

-- `contains_key`
abbrev pub has : {A : Type 0} → Option A → Bool
has none = Bool.false
has (some a) = Bool.true

module _ {N : Type 0} where
  abbrev pub put_receipt : ℕ → ℕ → Option Receipt → Action (State N) Failure (Unit {0})
  put_receipt dominator owner receipt =
      modify (λ s. record s { receipts = at_2 dominator owner receipt s.receipts })

  abbrev pub require_settled : ℕ → ℕ → Action (State N) Failure (Unit {0})
  require_settled dominator owner = do
    receipt ← gets (λ s. s.receipts dominator owner)
    require (not (has receipt)) (of_pallet receipt_already_exists)

  -- From the stash to what is authorized. The stash is removed when this succeeds.
  pub return_stash : ℕ → ℕ → ℕ → Action (State N) Failure (Unit {0})
  return_stash owner token dominator = do
    av ← gets (λ s. s.reserves reserve_for_authorizing_stash owner token dominator)
    if ltb 0 av
        then (do
          v ← gets (λ s. s.reserves reserve_for_authorizing owner token dominator)
          new ← or_raise (checked_add v av) (of_pallet overflow)
          put_reserve reserve_for_authorizing owner token dominator new)
        else pure tt
    put_reserve reserve_for_authorizing_stash owner token dominator 0

module _ {N : Type 0} (cf : Config N) where
  unfoldable pub authorize_to : ℕ → ℕ → ℕ → ℕ → Action (State N) Failure (Unit {0})
  authorize_to fund_owner dex token_id amount = transactional (do
    dominator ← get_dominator dex
    require (dominator.status == dominator_active) (of_pallet dominator_inactive)
    require_settled dex fund_owner
    enough ← gets (λ s. cf.asset.can_reserve token_id fund_owner amount s.native)
    require enough (of_pallet insufficient_balance)
    now ← gets (λ s. s.now)
    reserve cf reserve_for_authorizing_stash fund_owner token_id amount dex
    put_receipt dex fund_owner (some (authorize token_id amount now))
    deposit_event (token_hosted fund_owner dex token_id amount))

  -- `callback` is the call to make once the tokens are back.
  abbrev pub revocation : ℕ → ℕ → ℕ → Option ℕ → Receipt
  revocation token_id amount now none = revoke token_id amount now
  revocation token_id amount now (some callback) = revoke_with_callback token_id amount now callback

  -- From a dominator that was evicted the tokens are back at once.
  pub leave : ℕ → ℕ → ℕ → ℕ → Action (State N) Failure (Unit {0})
  leave fund_owner dominator_id token_id amount = do
    return_stash fund_owner token_id dominator_id
    unreserve cf reserve_for_authorizing fund_owner token_id amount dominator_id
    put_receipt dominator_id fund_owner none

  pub revoke_from : ℕ → ℕ → ℕ → ℕ → Option ℕ → Action (State N) Failure (Unit {0})
  revoke_from fund_owner dominator_id token_id amount callback = transactional (do
    enough ← gets (λ s. has_authorized_morethan s.reserves fund_owner token_id amount dominator_id)
    require enough (of_pallet insufficient_balance)
    dominator ← get_dominator dominator_id
    require (not (dominator.status == dominator_registered)) (of_pallet dominator_status_invalid)
    if dominator.status == dominator_evicted
        then leave fund_owner dominator_id token_id amount
        else (do
          require_settled dominator_id fund_owner
          now ← gets (λ s. s.now)
          put_receipt dominator_id fund_owner (some (revocation token_id amount now callback)))
    deposit_event (token_revoked fund_owner dominator_id token_id amount))

  pub call_authorize : Origin → ℕ → ℕ → ℕ → Action (State N) Failure (Unit {0})
  call_authorize origin target token_id amount = do
    fund_owner ← ensure_signed origin
    dex ← or_raise (cf.lookup_account target) cannot_lookup
    authorize_to fund_owner dex token_id amount

  pub call_revoke : Origin → ℕ → ℕ → ℕ → Action (State N) Failure (Unit {0})
  call_revoke origin target token_id amount = transactional (do
    fund_owner ← ensure_signed origin
    dominator ← or_raise (cf.lookup_account target) cannot_lookup
    revoke_from fund_owner dominator token_id amount none)

  pub call_revoke_with_callback : Origin → ℕ → ℕ → ℕ → ℕ → Action (State N) Failure (Unit {0})
  call_revoke_with_callback origin target token_id amount callback = transactional (do
    fund_owner ← ensure_signed origin
    dominator ← or_raise (cf.lookup_account target) cannot_lookup
    revoke_from fund_owner dominator token_id amount (some callback))
