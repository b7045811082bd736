-- ===== src/Verifier/Reserving/Undo.antt =====
-- What is reserved and given back, over pallet-fuso-token.
use mathlib.Core.Path.{fun_ext}
use fusotao_protocol.Base.{
  ℕ, ◌+◌, ◌<◌, ◌≤◌, ◌≡◌, ◌≢◌, ◌==◌, some, ap, ◌∙◌, Bool-cases, inl, inr, arith,
}
use fusotao_protocol.Base.Words.{u128_mod}
use fusotao_protocol.Base.Dict.{lookup}
use fusotao_protocol.Base.Result.{Result, ok, err, panicked, Result-cases}
use fusotao_protocol.Base.Action.{Action, ◌>>◌}
use fusotao_protocol.Base.Assoc.{at_4}
use fusotao_protocol.Token.Types as Tokens
use fusotao_protocol.Token.Types.{AccountData}
use fusotao_protocol.Token.Accounts as Accounts
use fusotao_protocol.Token.Accounts.Reserve.{unreserve-reserve}
use fusotao_protocol.Verifier.Types.{Reserves}
use fusotao_protocol.Verifier.State.{Failure, foreign, State, Config}
use fusotao_protocol.Verifier.Reserving.{reserve, unreserve}

-- Writing back what was there undoes a write.
at_4-same : (a b c d v : ℕ) (f : Reserves) → at_4 a b c d (f a b c d) (at_4 a b c d v f) ≡ f
at_4-same a b c d v f = fun_ext λ i. fun_ext λ j. fun_ext λ k. fun_ext λ l. ground arith

-- An error of the token pallet, as one of the call.
abbrev pub from_tokens :
    {S A : Type 0} → (Tokens.Error → ℕ) → Result Tokens.Error A × S → Result Failure A × S
from_tokens index (ok a, s) = (ok a, s)
from_tokens index (err e, s) = (err (foreign (index e)), s)
from_tokens index (panicked, s) = (panicked, s)

-- Two calls of the token pallet that succeed one after the other.
from_tokens-both :
    {S : Type 0}
    → (index : Tokens.Error → ℕ) → (p q : Action S Tokens.Error (Unit {0})) → (s : S)
    → ((p >> q) s).0 ≡ ok tt
    → let (r, s') = from_tokens index (p s) in
      (r ≡ ok tt)
      × ((from_tokens index (q s')).0 ≡ ok tt)
      × ((from_tokens index (q s')).1 ≡ ((p >> q) s).1)
from_tokens-both index p q s h = elim (Result-cases (p s).0) [
  | inr (inl (e, failed)) ↦ absurd (ground (arith, h, failed))
  | inr (inr failed) ↦ absurd (ground (arith, h, failed))
  | inl (u, done) ↦ elim (Result-cases (q (p s).1).0) [
    | inr (inl (e, failed)) ↦ absurd (ground (arith, h, done, failed))
    | inr (inr failed) ↦ absurd (ground (arith, h, done, failed))
    | inl (u', done') ↦ ground (arith, h, done, done')
  ]
]

module _ {N : Type 0} (rt : Tokens.Runtime N) (index : Tokens.Error → ℕ)
    (cf : Config (Tokens.State N))
    (reserves : (token who value : ℕ) (n : Tokens.State N)
      → cf.asset.reserve token who value n
        ≡ from_tokens index (Accounts.reserve rt token who value n))
    (unreserves : (token who value : ℕ) (n : Tokens.State N)
      → cf.asset.unreserve token who value n
        ≡ from_tokens index (Accounts.unreserve rt token who value n)) where
  -- The two calls of the token pallet, one after the other.
  undoes :
      (token who value : ℕ) (a : AccountData) (n : Tokens.State N)
      → token ≢ rt.native_token_id
      → lookup (token, who) n.balances ≡ some a
      → value ≤ a.free
      → a.free + a.reserved < u128_mod
      → let (r, n') = cf.asset.reserve token who value n in
        let (r', n'') = cf.asset.unreserve token who value n' in
        (r ≡ ok tt) × (r' ≡ ok tt) × (n''.balances ≡ n.balances)
  undoes token who value a n other found covered room =
      let both = unreserve-reserve rt token who value a n other found covered room in
      let steps =
        from_tokens-both index (Accounts.reserve rt token who value)
          (Accounts.unreserve rt token who value) n both.0 in
      rw (reserves token who value n) (
        rw
          (unreserves token who value (from_tokens index (Accounts.reserve rt token who value n)).1)
          (steps.0, steps.1, ap (λ n. n.balances) steps.2 ∙ both.1))

  -- Over pallet-fuso-token, an amount of a token other than the native one that the owner has
  -- free, where its two balances together fit 128 bits and so does what is reserved for the
  -- dominator with the amount, can be reserved for the dominator and released again; then all
  -- balances of tokens are what they were, and so is the whole storage of the pallet itself.
  pub unreserve-reserve_dominated :
      (id owner token value to : ℕ) (a : AccountData) (s : State (Tokens.State N))
      → token ≢ rt.native_token_id
      → lookup (token, owner) s.native.balances ≡ some a
      → value ≤ a.free
      → a.free + a.reserved < u128_mod
      → s.reserves id owner token to + value < u128_mod
      → let (r, s') =
          (reserve cf id owner token value to >> unreserve cf id owner token value to) s in
        (r ≡ ok tt)
        × (s' ≡ record s { native = s'.native })
        × (s'.native.balances ≡ s.native.balances)
  unfolding reserve unreserve
  unreserve-reserve_dominated id owner token value to a s other found covered room fits =
      let back = undoes token owner value a s.native other found covered room in
      elim (Bool-cases (value == 0)) [
        | inl zero ↦ ground (arith, zero)
        | inr positive ↦
            let moved = cf.asset.reserve token owner value s.native in
            ground (
              arith,
              positive,
              back,
              at_4-same id owner token to (s.reserves id owner token to + value) s.reserves,
            )
      ]
