-- ===== src/Token/Queries/Laws.antt =====
-- What the queries promise of a sound storage, and what a raw change of an account may do.
use fusotao_protocol.Base.{
  ℕ, ◌+◌, ◌≤◌, ◌≡◌, ◌≢◌, refl, true, false, [], ◌∷◌, Bool-cases, ◌==◌, arith, inl, inr,
}
use fusotao_protocol.Base.Dict.{
  lookup, put, total, weight, IsDict, put-IsDict, total-put, Dict, Key,
}
use fusotao_protocol.Base.Result.{Result, ok, Fails, Result-cases}
use fusotao_protocol.Token.Types.{AccountData, or_default, Error, Runtime, State}
use fusotao_protocol.Token.Ledger.{held, worth}
use fusotao_protocol.Token.Sound.{IsSound, IsTransfer-IsSound, same-IsTransfer}
use fusotao_protocol.Token.Accounts.{unless_dead}
use fusotao_protocol.Token.Queries.{balance, total_issuance, try_mutate_account}

-- One entry never weighs more than all.
weight-le-total :
    (w : ℕ → ℕ → AccountData → ℕ) (k : Key) (d : Dict AccountData)
    → weight w k (lookup k d) ≤ total w d
unfolding lookup total
weight-le-total w k [] = omega arith
weight-le-total w k (e ∷ d) = ground (arith, weight-le-total w k d)

module _ {N : Type 0} (rt : Runtime N) where
  -- In a sound storage the addition in `balance` neither panics nor wraps on a token of the
  -- pallet, and no account has more than the issuance of the token.
  pub balance-le-issuance :
      (token who : ℕ) (s : State N)
      → token ≢ rt.native_token_id
      → IsSound s
      → let account = or_default (lookup (token, who) s.balances) in
        (balance rt token who s ≡ ok (account.free + account.reserved))
        × (account.free + account.reserved ≤ total_issuance rt token s)
  unfolding balance total_issuance held
  balance-le-issuance token who s foreign v = ground (
    arith,
    weight-le-total (worth token) (token, who) s.balances,
    v.backed token,
    v.bounded token,
  )

  module _ {R : Type 0} (token who : ℕ) (f : AccountData → Result Error (R × AccountData))
      (s : State N) where
    native_kept :
        (token == rt.native_token_id) ≡ true
        → let s' = (try_mutate_account rt token who f s).1 in
          (s'.balances ≡ s.balances) × (s'.tokens ≡ s.tokens) × (s'.next_token_id ≡ s.next_token_id)
    unfolding try_mutate_account
    native_kept native = ground arith

    foreign_failed :
        (token == rt.native_token_id) ≡ false
        → Fails (f (or_default (lookup (token, who) s.balances)))
        → (try_mutate_account rt token who f s).1 ≡ s
    unfolding try_mutate_account
    foreign_failed foreign (inl (e, failed)) = ground arith
    foreign_failed foreign (inr failed) = ground arith

    foreign_changed :
        (r : R) (a : AccountData)
        → (token == rt.native_token_id) ≡ false
        → f (or_default (lookup (token, who) s.balances)) ≡ ok (r, a)
        → (try_mutate_account rt token who f s).1
          ≡ record s { balances = put (token, who) (unless_dead a) s.balances }
    unfolding try_mutate_account
    foreign_changed r a foreign e = ground arith

    put-no_gain :
        (t : ℕ) (a : AccountData)
        → IsDict s.balances
        → (let old = or_default (lookup (token, who) s.balances) in
            a.free + a.reserved ≤ old.free + old.reserved)
        → held t (record s { balances = put (token, who) (unless_dead a) s.balances }) ≤ held t s
    unfolding held
    put-no_gain t a dict less =
        ground (arith, total-put (worth t) (token, who) (unless_dead a) s.balances dict)

    -- A raw change of an account by `try_mutate_account`, of a kind that never raises what an
    -- account holds, keeps the storage sound, whatever it ends in.
    pub try_mutate_account-IsSound :
        ((a : AccountData) (r : R) (a' : AccountData)
          → f a ≡ ok (r, a')
          → a'.free + a'.reserved ≤ a.free + a.reserved)
        → IsSound s
        → IsSound (try_mutate_account rt token who f s).1
    try_mutate_account-IsSound bound v = elim (Bool-cases (token == rt.native_token_id)) [
      | inl native ↦
          let kept = native_kept native in
          IsTransfer-IsSound (same-IsTransfer v.keyed kept.0 kept.1 kept.2) v
      | inr foreign ↦ elim (Result-cases (f (or_default (lookup (token, who) s.balances)))) [
        | inr failed ↦ rw (foreign_failed foreign failed) v
        | inl (r, e) ↦ rw (foreign_changed r.0 r.1 foreign e) (
            IsTransfer-IsSound
              (record {
                keyed = put-IsDict (token, who) (unless_dead r.1) s.balances v.keyed;
                tokens_kept = refl;
                next_kept = refl;
                no_gain = λ t. put-no_gain t r.1 v.keyed (bound _ r.0 r.1 e);
              })
              v)
      ]
    ]
