-- ===== src/Token/Accounts/Reserve.antt =====
-- Reserving and unreserving: the sum stays, a failure changes nothing, and one undoes the other.
use fusotao_protocol.Base.{
  ℕ, ◌+◌, ◌-◌, ◌<◌, ◌≤◌, ◌≡◌, ◌≢◌, ◌⊎◌, ◌↔◌, true, some, inl, inr, arith, Option-cases,
}
use fusotao_protocol.Base.Words.{u128_mod}
use fusotao_protocol.Base.Dict.{
  lookup, lookup-insert, total-put, insert-insert, insert_same, IsDict, insert-IsDict,
}
use fusotao_protocol.Base.Result.{ok}
use fusotao_protocol.Base.Action.{◌>>◌}
use fusotao_protocol.Token.Types.{AccountData, or_default, State, Runtime}
use fusotao_protocol.Token.Ledger.{held, worth}
use fusotao_protocol.Token.Sound.{IsTransfer}
use fusotao_protocol.Token.Accounts.{reserve, unreserve, can_reserve, free_balance}

module _ {N : Type 0} (rt : Runtime N) where
  pub held-reserve :
      (t token who value : ℕ) (s : State N)
      → IsDict s.balances
      → held t (reserve rt token who value s).1 ≡ held t s
  unfolding reserve held
  held-reserve t token who value s dict = elim (Option-cases (lookup (token, who) s.balances)) [
    | inl missing ↦ ground arith
    | inr (a, found) ↦ ground (
      arith,
      total-put (worth t) (token, who)
          (some (record { free = a.free - value; reserved = a.reserved + value })) s.balances dict,
    )
  ]

  pub held-unreserve :
      (t token who value : ℕ) (s : State N)
      → IsDict s.balances
      → held t (unreserve rt token who value s).1 ≡ held t s
  unfolding unreserve held
  held-unreserve t token who value s dict = elim (Option-cases (lookup (token, who) s.balances)) [
    | inl missing ↦ ground arith
    | inr (a, found) ↦ ground (
      arith,
      total-put (worth t) (token, who)
          (some (record { free = a.free + value; reserved = a.reserved - value })) s.balances dict,
    )
  ]

  -- Of a token of the pallet, `can_reserve` holds exactly when `reserve` succeeds, where the two
  -- balances of the account together fit `u128`.
  pub can_reserve-reserve :
      (token who value : ℕ) (s : State N)
      → token ≢ rt.native_token_id
      → (let a = or_default (lookup (token, who) s.balances) in a.free + a.reserved < u128_mod)
      → (can_reserve rt token who value s ≡ true) ↔ ((reserve rt token who value s).0 ≡ ok tt)
  unfolding reserve can_reserve free_balance
  can_reserve-reserve token who value s foreign room =
      elim (Option-cases (lookup (token, who) s.balances)) [
        | inl missing ↦ ground arith
        | inr (a, found) ↦ ground arith
      ]

  -- Of a token of the pallet, an amount that an account has free, where its two balances together
  -- fit `u128`, can be reserved and unreserved, and then all balances are what they were.
  pub unreserve-reserve :
      (token who value : ℕ) (a : AccountData) (s : State N)
      → token ≢ rt.native_token_id
      → lookup (token, who) s.balances ≡ some a
      → value ≤ a.free
      → a.free + a.reserved < u128_mod
      → let (r, s') = (reserve rt token who value >> unreserve rt token who value) s in
        (r ≡ ok tt) × (s'.balances ≡ s.balances)
  unfolding reserve unreserve
  unreserve-reserve token who value a s foreign found covered room =
      let b : AccountData = record { free = a.free - value; reserved = a.reserved + value } in
      ground (
        arith,
        lookup-insert (token, who) (token, who) b s.balances,
        insert-insert (token, who) b a s.balances,
        insert_same (token, who) a s.balances,
      )

  -- Of a token of the pallet, `reserve` and `unreserve` each succeed or leave the storage as it
  -- was.
  pub reserve_atomic :
      (token who value : ℕ) (s : State N)
      → token ≢ rt.native_token_id
      → (((reserve rt token who value s).0 ≡ ok tt) ⊎ ((reserve rt token who value s).1 ≡ s))
        × (((unreserve rt token who value s).0 ≡ ok tt) ⊎ ((unreserve rt token who value s).1 ≡ s))
  unfolding reserve unreserve
  reserve_atomic token who value s foreign = elim (Option-cases (lookup (token, who) s.balances)) [
    | inl missing ↦ ground arith
    | inr (a, found) ↦ ground arith
  ]

  reserve-kept :
      (token who value : ℕ) (s : State N)
      → IsDict s.balances
      → let s' = (reserve rt token who value s).1 in
        IsDict s'.balances × (s'.tokens ≡ s.tokens) × (s'.next_token_id ≡ s.next_token_id)
  unfolding reserve
  reserve-kept token who value s dict = elim (Option-cases (lookup (token, who) s.balances)) [
    | inl missing ↦ ground arith
    | inr (a, found) ↦ ground (
      arith,
      insert-IsDict (token, who) (record { free = a.free - value; reserved = a.reserved + value })
          s.balances dict,
    )
  ]

  unreserve-kept :
      (token who value : ℕ) (s : State N)
      → IsDict s.balances
      → let s' = (unreserve rt token who value s).1 in
        IsDict s'.balances × (s'.tokens ≡ s.tokens) × (s'.next_token_id ≡ s.next_token_id)
  unfolding unreserve
  unreserve-kept token who value s dict = elim (Option-cases (lookup (token, who) s.balances)) [
    | inl missing ↦ ground arith
    | inr (a, found) ↦ ground (
      arith,
      insert-IsDict (token, who) (record { free = a.free + value; reserved = a.reserved - value })
          s.balances dict,
    )
  ]

  pub reserve-IsTransfer :
      (token who value : ℕ) (s : State N)
      → IsDict s.balances
      → IsTransfer s (reserve rt token who value s).1
  reserve-IsTransfer token who value s dict =
      let kept = reserve-kept token who value s dict in
      record {
        keyed = kept.0;
        tokens_kept = kept.1;
        next_kept = kept.2;
        no_gain = λ t. omega (arith, held-reserve t token who value s dict);
      }

  pub unreserve-IsTransfer :
      (token who value : ℕ) (s : State N)
      → IsDict s.balances
      → IsTransfer s (unreserve rt token who value s).1
  unreserve-IsTransfer token who value s dict =
      let kept = unreserve-kept token who value s dict in
      record {
        keyed = kept.0;
        tokens_kept = kept.1;
        next_kept = kept.2;
        no_gain = λ t. omega (arith, held-unreserve t token who value s dict);
      }
