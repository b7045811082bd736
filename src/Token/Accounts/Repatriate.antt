-- ===== src/Token/Accounts/Repatriate.antt =====
-- Repatriation moves a reserved amount to another account, and does something else to one's own.
use fusotao_protocol.Base.{
  ℕ, ◌+◌, ◌-◌, ◌<◌, ◌≤◌, ◌≡◌, ◌≢◌, some, inl, inr, ◌==◌, arith, Bool-cases, Option-cases,
}
use fusotao_protocol.Base.Words.{u128_mod}
use fusotao_protocol.Base.Dict.{
  lookup, lookup-put-insert, lookup-insert, insert, total-put-insert, IsDict, put-IsDict,
  insert-IsDict,
}
use fusotao_protocol.Base.Result.{ok}
use fusotao_protocol.Token.Types.{
  AccountData, or_default, State, Runtime, BalanceStatus, to_free, to_reserved,
}
use fusotao_protocol.Token.Ledger.{held, worth}
use fusotao_protocol.Token.Sound.{IsTransfer}
use fusotao_protocol.Token.Accounts.{
  unless_dead, repatriate_self, repatriate_between, repatriate_reserved, reserve,
}
use fusotao_protocol.Token.Accounts.Reserve.{
  held-reserve, held-unreserve, reserve-IsTransfer, unreserve-IsTransfer,
}

-- The account of a beneficiary after the credit.
abbrev pub credited : BalanceStatus → ℕ → AccountData → AccountData
credited to_free value a = record a { free = a.free + value }
credited to_reserved value a = record a { reserved = a.reserved + value }

module _ {N : Type 0} (rt : Runtime N) where
  -- Of a token of the pallet, between two accounts, an amount that the one has reserved and the
  -- other has room for leaves the reserved balance of the one, which is removed when nothing is
  -- left, and joins the balance of the other that the status names.
  pub repatriate_reserved_moves :
      (token slashed beneficiary value : ℕ) (status : BalanceStatus) (from : AccountData)
      (s : State N)
      → token ≢ rt.native_token_id
      → slashed ≢ beneficiary
      → lookup (token, slashed) s.balances ≡ some from
      → value ≤ from.reserved
      → (let to = or_default (lookup (token, beneficiary) s.balances) in
          to.free + to.reserved + value < u128_mod)
      → let to = or_default (lookup (token, beneficiary) s.balances) in
        let (r, s') = repatriate_reserved rt token slashed beneficiary value status s in
        (r ≡ ok tt)
        × (lookup (token, slashed) s'.balances
            ≡ unless_dead (record from { reserved = from.reserved - value }))
        × (lookup (token, beneficiary) s'.balances ≡ some (credited status value to))
  unfolding repatriate_reserved
  repatriate_reserved_moves token slashed beneficiary value to_free from s foreign apart found
        covered room =
      let to = or_default (lookup (token, beneficiary) s.balances) in
      ground (
        arith,
        lookup-put-insert (token, slashed) (token, beneficiary)
            (unless_dead (record from { reserved = from.reserved - value }))
            (record to { free = to.free + value }) s.balances,
      )
  repatriate_reserved_moves token slashed beneficiary value to_reserved from s foreign apart found
        covered room =
      let to = or_default (lookup (token, beneficiary) s.balances) in
      ground (
        arith,
        lookup-put-insert (token, slashed) (token, beneficiary)
            (unless_dead (record from { reserved = from.reserved - value }))
            (record to { reserved = to.reserved + value }) s.balances,
      )

  held-repatriate_self :
      (t token who value : ℕ) (status : BalanceStatus) (s : State N)
      → IsDict s.balances
      → held t (repatriate_self rt token who value status s).1 ≡ held t s
  unfolding repatriate_self
  held-repatriate_self t token who value to_free s dict = held-unreserve rt t token who value s dict
  held-repatriate_self t token who value to_reserved s dict =
      held-reserve rt t token who value s dict

  held-repatriate_between :
      (t token slashed beneficiary value : ℕ) (status : BalanceStatus) (s : State N)
      → IsDict s.balances
      → slashed ≢ beneficiary
      → held t (repatriate_between rt token slashed beneficiary value status s).1 ≡ held t s
  unfolding repatriate_between held
  held-repatriate_between t token slashed beneficiary value to_free s dict apart =
      elim (Option-cases (lookup (token, slashed) s.balances)) [
        | inl missing ↦ ground arith
        | inr (from, found) ↦
            let to = or_default (lookup (token, beneficiary) s.balances) in
            ground (
              arith,
              total-put-insert (worth t) (token, slashed) (token, beneficiary)
                  (unless_dead (record from { reserved = from.reserved - value }))
                  (record to { free = to.free + value }) s.balances dict,
            )
      ]
  held-repatriate_between t token slashed beneficiary value to_reserved s dict apart =
      elim (Option-cases (lookup (token, slashed) s.balances)) [
        | inl missing ↦ ground arith
        | inr (from, found) ↦
            let to = or_default (lookup (token, beneficiary) s.balances) in
            ground (
              arith,
              total-put-insert (worth t) (token, slashed) (token, beneficiary)
                  (unless_dead (record from { reserved = from.reserved - value }))
                  (record to { reserved = to.reserved + value }) s.balances dict,
            )
      ]

  -- A repatriation leaves the sum of all balances of each token as it is, whatever the accounts,
  -- the amount and the status, and whatever it ends in, where no account is stored twice.
  pub held-repatriate_reserved :
      (t token slashed beneficiary value : ℕ) (status : BalanceStatus) (s : State N)
      → IsDict s.balances
      → held t (repatriate_reserved rt token slashed beneficiary value status s).1 ≡ held t s
  unfolding repatriate_reserved
  held-repatriate_reserved t token slashed beneficiary value status s dict =
      elim (Bool-cases (token == rt.native_token_id)) [
        | inl native ↦ unfold held in ground arith
        | inr foreign ↦ elim (Bool-cases (slashed == beneficiary)) [
          | inl same ↦ rw (foreign, same) (held-repatriate_self t token slashed value status s dict)
          | inr apart ↦
              rw (foreign, apart)
                (held-repatriate_between t token slashed beneficiary value status s dict
                  (ground arith))
        ]
      ]

  -- Of a token of the pallet, a repatriation of a positive amount from an account to its own
  -- reserved balance succeeds where the amount is free, and reserves the amount once more, where
  -- its two balances together fit `u128`.
  pub repatriate_reserved_self :
      (token who value : ℕ) (a : AccountData) (s : State N)
      → token ≢ rt.native_token_id
      → value ≢ 0
      → lookup (token, who) s.balances ≡ some a
      → value ≤ a.free
      → a.free + a.reserved < u128_mod
      → let (r, s') = repatriate_reserved rt token who who value to_reserved s in
        (r ≡ ok tt)
        × (lookup (token, who) s'.balances
            ≡ some (record { free = a.free - value; reserved = a.reserved + value }))
  unfolding repatriate_reserved repatriate_self reserve
  repatriate_reserved_self token who value a s foreign pos found covered room =
      grind (arith, lookup-insert)

  repatriate_between-kept :
      (token slashed beneficiary value : ℕ) (status : BalanceStatus) (s : State N)
      → IsDict s.balances
      → let s' = (repatriate_between rt token slashed beneficiary value status s).1 in
        IsDict s'.balances × (s'.tokens ≡ s.tokens) × (s'.next_token_id ≡ s.next_token_id)
  unfolding repatriate_between
  repatriate_between-kept token slashed beneficiary value to_free s dict =
      elim (Option-cases (lookup (token, slashed) s.balances)) [
        | inl missing ↦ ground arith
        | inr (from, found) ↦
            let to = or_default (lookup (token, beneficiary) s.balances) in
            let after : AccountData = record to { free = to.free + value } in
            ground (
              arith,
              put-IsDict (token, slashed)
                  (unless_dead (record from { reserved = from.reserved - value }))
                  (insert (token, beneficiary) after s.balances)
                  (insert-IsDict (token, beneficiary) after s.balances dict),
            )
      ]
  repatriate_between-kept token slashed beneficiary value to_reserved s dict =
      elim (Option-cases (lookup (token, slashed) s.balances)) [
        | inl missing ↦ ground arith
        | inr (from, found) ↦
            let to = or_default (lookup (token, beneficiary) s.balances) in
            let after : AccountData = record to { reserved = to.reserved + value } in
            ground (
              arith,
              put-IsDict (token, slashed)
                  (unless_dead (record from { reserved = from.reserved - value }))
                  (insert (token, beneficiary) after s.balances)
                  (insert-IsDict (token, beneficiary) after s.balances dict),
            )
      ]

  repatriate_self-IsTransfer :
      (token who value : ℕ) (status : BalanceStatus) (s : State N)
      → IsDict s.balances
      → IsTransfer s (repatriate_self rt token who value status s).1
  unfolding repatriate_self
  repatriate_self-IsTransfer token who value to_free s dict =
      unreserve-IsTransfer rt token who value s dict
  repatriate_self-IsTransfer token who value to_reserved s dict =
      reserve-IsTransfer rt token who value s dict

  repatriate_reserved-kept :
      (token slashed beneficiary value : ℕ) (status : BalanceStatus) (s : State N)
      → IsDict s.balances
      → let s' = (repatriate_reserved rt token slashed beneficiary value status s).1 in
        IsDict s'.balances × (s'.tokens ≡ s.tokens) × (s'.next_token_id ≡ s.next_token_id)
  unfolding repatriate_reserved
  repatriate_reserved-kept token slashed beneficiary value status s dict =
      elim (Bool-cases (token == rt.native_token_id)) [
        | inl native ↦ ground arith
        | inr foreign ↦ elim (Bool-cases (slashed == beneficiary)) [
          | inl same ↦
              let step = repatriate_self-IsTransfer token slashed value status s dict in
              rw (foreign, same) (step.keyed, step.tokens_kept, step.next_kept)
          | inr apart ↦
              rw (foreign, apart)
                (repatriate_between-kept token slashed beneficiary value status s dict)
        ]
      ]

  pub repatriate_reserved-IsTransfer :
      (token slashed beneficiary value : ℕ) (status : BalanceStatus) (s : State N)
      → IsDict s.balances
      → IsTransfer s (repatriate_reserved rt token slashed beneficiary value status s).1
  repatriate_reserved-IsTransfer token slashed beneficiary value status s dict =
      let kept = repatriate_reserved-kept token slashed beneficiary value status s dict in
      record {
        keyed = kept.0;
        tokens_kept = kept.1;
        next_kept = kept.2;
        no_gain = λ t.
            omega (arith, held-repatriate_reserved t token slashed beneficiary value status s dict);
      }
