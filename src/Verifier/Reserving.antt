-- ===== src/Verifier/Reserving.antt =====
-- The balances that are reserved for dominators: `reserve`, `unreserve` and `clear`.
-- Source: pallet-fuso-verifier/src/lib.rs.
pub mod Laws
pub mod Undo
mod Tests
use fusotao_protocol.Base.{ℕ, ◌-◌, Option, none, some, ◌==◌, if◌then◌else◌}
use fusotao_protocol.Base.Words.{checked_add, checked_sub}
use fusotao_protocol.Base.Result.{ok_or, ok, ◌>>=◌ as ◌then◌}
use fusotao_protocol.Base.Action.{Action, pure, gets, modify, or_raise, transactional, ◌>>=◌, ◌>>◌}
use fusotao_protocol.Base.Assoc.{at_4}
use fusotao_protocol.Verifier.Types.{insufficient_balance, overflow}
use fusotao_protocol.Verifier.Accounts.{reserve_for_authorizing}
use fusotao_protocol.Verifier.State.{Failure, of_pallet, State, Config, on_native}

-- What is left of the reserved balance when the part `old` of it is replaced by `new`.
abbrev pub unwrap_or_default : Option ℕ → ℕ
unwrap_or_default none = 0
unwrap_or_default (some n) = n

module _ {N : Type 0} where
  abbrev pub put_reserve : ℕ → ℕ → ℕ → ℕ → ℕ → Action (State N) Failure (Unit {0})
  put_reserve id who token dominator value =
      modify (λ s. record s { reserves = at_4 id who token dominator value s.reserves })

module _ {N : Type 0} (cf : Config N) where
  -- The arguments in the order of the source: reserve id, owner, token, value, dominator.
  unfoldable pub reserve : ℕ → ℕ → ℕ → ℕ → ℕ → Action (State N) Failure (Unit {0})
  reserve id owner token value to =
      if value == 0
      then pure tt
      else transactional (do
        old ← gets (λ s. s.reserves id owner token to)
        on_native (cf.asset.reserve token owner value)
        new ← or_raise (checked_add old value) (of_pallet overflow)
        put_reserve id owner token to new)

  -- A missing entry and one of zero fail with the same error.
  unfoldable pub unreserve : ℕ → ℕ → ℕ → ℕ → ℕ → Action (State N) Failure (Unit {0})
  unreserve id owner token value from =
      if value == 0
      then pure tt
      else transactional (do
        old ← gets (λ s. s.reserves id owner token from)
        on_native (cf.asset.unreserve token owner value)
        new ← or_raise (checked_sub old value) (of_pallet insufficient_balance)
        put_reserve id owner token from new)

  pub clear : ℕ → ℕ → ℕ → ℕ → Action (State N) Failure (Unit {0})
  clear who dominator token balance = transactional (do
    reserved ← gets (λ s. s.reserves reserve_for_authorizing who token dominator)
    on_native (
        cf.asset.try_mutate_account token who (λ b.
          ok_or (checked_add (unwrap_or_default (checked_sub b.1 reserved)) balance)
            (of_pallet overflow)
          then λ kept. ok (b.0, kept)))
    put_reserve reserve_for_authorizing who token dominator balance)
