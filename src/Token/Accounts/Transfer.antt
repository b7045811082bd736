-- ===== src/Token/Accounts/Transfer.antt =====
-- What a transfer does to the two accounts, to all others, and to the sum of a token.
use fusotao_protocol.Base.{
  ℕ, ◌+◌, ◌-◌, ◌<◌, ◌≤◌, ◌≡◌, ◌≢◌, ◌⊎◌, some, inl, inr, leb, arith, ◌++◌, ◌∷◌, [], Bool-cases,
  Option-cases,
}
use fusotao_protocol.Base.Words.{u128_mod}
use fusotao_protocol.Base.Dict.{
  lookup, lookup-insert, lookup-erase, insert, total-put-insert, total-put-insert_self, IsDict,
  put-IsDict, insert-IsDict,
}
use fusotao_protocol.Base.Result.{ok, err}
use fusotao_protocol.Token.Types.{
  AccountData, or_default, State, Runtime, token_transfered, Error, balance_zero, overflow,
  insufficient_balance,
}
use fusotao_protocol.Token.Ledger.{held, worth}
use fusotao_protocol.Token.Sound.{IsTransfer}
use fusotao_protocol.Token.Accounts.{unless_dead, transfer_token}

module _ {N : Type 0} (rt : Runtime N) where
  -- Of a token of the pallet, between two accounts, a positive amount that the origin has free and
  -- the target has room for moves: the result is the amount, the origin keeps the rest and is
  -- removed when nothing is left, the target gains the amount, and one event is deposited.
  pub transfer_token_moves :
      (origin token amount target : ℕ) (from : AccountData) (s : State N)
      → token ≢ rt.native_token_id
      → origin ≢ target
      → amount ≢ 0
      → lookup (token, origin) s.balances ≡ some from
      → amount ≤ from.free
      → (or_default (lookup (token, target) s.balances)).free + amount < u128_mod
      → let to = or_default (lookup (token, target) s.balances) in
        let (r, s') = transfer_token rt origin token amount target s in
        (r ≡ ok amount)
        × (lookup (token, origin) s'.balances
            ≡ unless_dead (record from { free = from.free - amount }))
        × (lookup (token, target) s'.balances ≡ some (record to { free = to.free + amount }))
        × (s'.events ≡ s.events ++ token_transfered token origin target amount ∷ [])
  unfolding transfer_token
  transfer_token_moves origin token amount target from s foreign apart pos found covered room =
      grind (arith, lookup-insert, lookup-erase)

  -- Between two accounts a transfer leaves the sum of all balances of each token as it is,
  -- whatever it ends in, where no account is stored twice.
  pub held-transfer_token :
      (t origin token amount target : ℕ) (s : State N)
      → IsDict s.balances
      → origin ≢ target
      → held t (transfer_token rt origin token amount target s).1 ≡ held t s
  unfolding transfer_token held
  held-transfer_token t origin token amount target s dict apart =
      elim (Option-cases (lookup (token, origin) s.balances)) [
        | inl missing ↦ ground arith
        | inr (from, found) ↦
            let to = or_default (lookup (token, target) s.balances) in
            ground (
              arith,
              total-put-insert (worth t) (token, origin) (token, target)
                  (unless_dead (record from { free = from.free - amount }))
                  (record to { free = to.free + amount }) s.balances dict,
            )
      ]

  -- Of a token of the pallet, a covered transfer from an account to itself succeeds, and the sum
  -- of all balances of the token falls by the amount, where no account is stored twice and the
  -- amount on top of the free balance fits 128 bits.
  pub held-transfer_token_self :
      (who token amount : ℕ) (from : AccountData) (s : State N)
      → IsDict s.balances
      → token ≢ rt.native_token_id
      → lookup (token, who) s.balances ≡ some from
      → amount ≤ from.free
      → from.free + amount < u128_mod
      → let (r, s') = transfer_token rt who token amount who s in
        (r ≡ ok amount) × (held token s' + amount ≡ held token s)
  unfolding transfer_token held
  held-transfer_token_self who token amount from s dict foreign found covered room = ground (
    arith,
    total-put-insert_self (worth token) (token, who)
        (unless_dead (record from { free = from.free - amount }))
        (record from { free = from.free + amount }) s.balances dict,
  )

  -- Of a token of the pallet, a transfer of a positive amount that the origin does not have free,
  -- or that does not fit the target, ends in an error and changes nothing.
  pub transfer_token_refused :
      (origin token amount target : ℕ) (s : State N)
      → token ≢ rt.native_token_id
      → amount ≢ 0
      → let from = or_default (lookup (token, origin) s.balances) in
        let to = or_default (lookup (token, target) s.balances) in
        (from.free < amount) ⊎ (u128_mod ≤ to.free + amount)
        → (e : Error) × (transfer_token rt origin token amount target s ≡ (err e, s))
  unfolding transfer_token
  transfer_token_refused origin token amount target s foreign pos short =
      elim (Option-cases (lookup (token, origin) s.balances)) [
        | inl missing ↦ (balance_zero, ground arith)
        | inr (from, found) ↦ elim (Bool-cases (leb amount from.free)) [
          | inl covered ↦ (overflow, ground arith)
          | inr uncovered ↦ (insufficient_balance, ground arith)
        ]
      ]

  transfer_token-keyed :
      (origin token amount target : ℕ) (s : State N)
      → IsDict s.balances
      → IsDict (transfer_token rt origin token amount target s).1.balances
  unfolding transfer_token
  transfer_token-keyed origin token amount target s dict =
      elim (Option-cases (lookup (token, origin) s.balances)) [
        | inl missing ↦ ground arith
        | inr (from, found) ↦
            let to = or_default (lookup (token, target) s.balances) in
            let after : AccountData = record to { free = to.free + amount } in
            ground (
              arith,
              put-IsDict (token, origin) (unless_dead (record from { free = from.free - amount }))
                  (insert (token, target) after s.balances)
                  (insert-IsDict (token, target) after s.balances dict),
            )
      ]

  held-transfer_token_le :
      (t who token amount : ℕ) (s : State N)
      → IsDict s.balances
      → held t (transfer_token rt who token amount who s).1 ≤ held t s
  unfolding transfer_token held
  held-transfer_token_le t who token amount s dict =
      elim (Option-cases (lookup (token, who) s.balances)) [
        | inl missing ↦ ground arith
        | inr (from, found) ↦ ground (
          arith,
          total-put-insert_self (worth t) (token, who)
              (unless_dead (record from { free = from.free - amount }))
              (record from { free = from.free + amount }) s.balances dict,
        )
      ]

  transfer_token-kept :
      (origin token amount target : ℕ) (s : State N)
      → let s' = (transfer_token rt origin token amount target s).1 in
        (s'.tokens ≡ s.tokens) × (s'.next_token_id ≡ s.next_token_id)
  unfolding transfer_token
  transfer_token-kept origin token amount target s = ground arith

  pub transfer_token-IsTransfer :
      (origin token amount target : ℕ) (s : State N)
      → IsDict s.balances
      → IsTransfer s (transfer_token rt origin token amount target s).1
  transfer_token-IsTransfer origin token amount target s dict = record {
    keyed = transfer_token-keyed origin token amount target s dict;
    tokens_kept = (transfer_token-kept origin token amount target s).0;
    next_kept = (transfer_token-kept origin token amount target s).1;
    no_gain = λ t. ground (
      arith,
      held-transfer_token_le t origin token amount s dict,
      held-transfer_token t origin token amount target s dict,
    );
  }
