-- ===== src/Token/Issuance/Retotal.antt =====
-- The change of a description in a mint or a burn, apart from the kind of the token.
use fusotao_protocol.Base.{
  ℕ, ◌<◌, ◌≤◌, ◌≡◌, ◌≢◌, refl, Option, none, some, List, arith, sym, ap, ◌∙◌,
}
use native.Mathlib.Decide.{ℕ_discrete}
use fusotao_protocol.Base.Words.{u128_mod}
use fusotao_protocol.Base.Dict.{IsDict}
use fusotao_protocol.Base.Action.{Action, lift, or_raise, pure, ◌>>=◌}
use fusotao_protocol.Support.{XToken, nep141, erc20, bep20, fnd10}
use fusotao_protocol.Token.Types.{State, Runtime, Error, insufficient_balance, update}
use fusotao_protocol.Token.Ledger.{held}
use fusotao_protocol.Token.Sound.{IsSound, total_of, issued}
use fusotao_protocol.Token.Decimals.{unify_decimals}
use fusotao_protocol.Token.Issuance.{retotal, with_total}

-- The decimals of a token that has them.
abbrev pub decimals_of : XToken → Option ℕ
decimals_of (nep141 symbol contract total stable decimals) = some decimals
decimals_of (erc20 symbol contract total stable decimals) = some decimals
decimals_of (bep20 symbol contract total stable decimals) = some decimals
decimals_of (fnd10 symbol total) = none

pub decimals_of-none :
    (info : XToken)
    → decimals_of info ≡ none
    → (symbol : List ℕ) × (n : ℕ) × (info ≡ fnd10 symbol n)
decimals_of-none (nep141 symbol contract total stable decimals) h = cc
decimals_of-none (erc20 symbol contract total stable decimals) h = cc
decimals_of-none (bep20 symbol contract total stable decimals) h = cc
decimals_of-none (fnd10 symbol total) h = (symbol, total, refl)

-- The total of a description with a new one.
pub total_of-with_total : (n : ℕ) (info : XToken) → total_of (with_total n info) ≡ n
total_of-with_total n (nep141 symbol contract total stable decimals) = refl
total_of-with_total n (erc20 symbol contract total stable decimals) = refl
total_of-with_total n (bep20 symbol contract total stable decimals) = refl
total_of-with_total n (fnd10 symbol total) = refl

pub decimals_of-with_total :
    (n : ℕ) (info : XToken) → decimals_of (with_total n info) ≡ decimals_of info
decimals_of-with_total n (nep141 symbol contract total stable decimals) = refl
decimals_of-with_total n (erc20 symbol contract total stable decimals) = refl
decimals_of-with_total n (bep20 symbol contract total stable decimals) = refl
decimals_of-with_total n (fnd10 symbol total) = refl

module _ {N : Type 0} (rt : Runtime N) where
  abbrev pub retotal_by : (ℕ → ℕ → Option ℕ) → ℕ → ℕ → XToken → Action (State N) Error (XToken × ℕ)
  retotal_by change amount decimals info = do
    unified ← lift (unify_decimals rt.overflow_checks amount decimals)
    total' ← or_raise (change (total_of info) unified) insufficient_balance
    pure (with_total total' info, unified)

  pub retotal_fungible :
      (change : ℕ → ℕ → Option ℕ) (amount d : ℕ) (info : XToken)
      → decimals_of info ≡ some d
      → retotal rt change amount info ≡ retotal_by change amount d info
  unfolding retotal
  retotal_fungible change amount d (nep141 symbol contract total stable decimals) h = cc
  retotal_fungible change amount d (erc20 symbol contract total stable decimals) h = cc
  retotal_fungible change amount d (bep20 symbol contract total stable decimals) h = cc
  retotal_fungible change amount d (fnd10 symbol total) h = cc

-- One token has a new total, which its accounts do not exceed.
pub record IsRetotal {N : Type 0} (t n : ℕ) (info : XToken) (s s' : State N) : Type 0 where
  pub keyed : IsDict s'.balances
  pub next_kept : s'.next_token_id ≡ s.next_token_id
  pub known : s.tokens t ≡ some info
  pub described : s'.tokens ≡ update t (some (with_total n info)) s.tokens
  pub within : n < u128_mod
  pub covered : held t s' ≤ n
  pub no_gain : (j : ℕ) → j ≢ t → held j s' ≤ held j s
  pub fungible : decimals_of info ≢ none

module _ {N : Type 0} (t n : ℕ) (info : XToken) (s s' : State N) where
  tokens_here : IsRetotal t n info s s' → s'.tokens t ≡ some (with_total n info)
  tokens_here step = ap (λ f. f t) step.described ∙ ground arith

  tokens_there : (j : ℕ) → j ≢ t → IsRetotal t n info s s' → s'.tokens j ≡ s.tokens j
  tokens_there j apart step = ap (λ f. f j) step.described ∙ ground arith

  pub IsRetotal-IsSound : IsRetotal t n info s s' → IsSound s → IsSound s'
  IsRetotal-IsSound step v = record {
    keyed = step.keyed;
    backed = λ j. elim (ℕ_discrete j t) [
      | yes here ↦ rw (here, issued_here) step.covered
      | no there ↦ rw (tokens_there j there step) (omega (arith, step.no_gain j there, v.backed j))
    ];
    bounded = λ j. elim (ℕ_discrete j t) [
      | yes here ↦ rw (here, issued_here) step.within
      | no there ↦ rw (tokens_there j there step) (v.bounded j)
    ];
    fresh = λ j h. elim (ℕ_discrete j t) [
      | yes here ↦ absurd (none≢some (sym (v.fresh t (omega (arith, step.next_kept))) ∙ step.known))
      | no there ↦ tokens_there j there step ∙ v.fresh j (omega (arith, step.next_kept))
    ];
    unminted = λ j symbol m h. elim (ℕ_discrete j t) [
      | yes here ↦ absurd (step.fungible (not_fungible symbol m (sym (ap s'.tokens here) ∙ h)))
      | no there ↦ v.unminted j symbol m (sym (tokens_there j there step) ∙ h)
    ];
  }
    where
      issued_here : issued (s'.tokens t) ≡ n
      issued_here = ap issued (tokens_here step) ∙ total_of-with_total n info

      none≢some : none ≡ some info → ⊥
      none≢some e = cc

      not_fungible :
          (symbol : List ℕ) (m : ℕ) → s'.tokens t ≡ some (fnd10 symbol m) → decimals_of info ≡ none
      not_fungible symbol m e =
          sym (decimals_of-with_total n info)
          ∙ ap (λ o. elim o [ none ↦ none | some i ↦ decimals_of i ]) (sym (tokens_here step) ∙ e)

module _ {N : Type 0} (rt : Runtime N) where
  pub retotal-kept :
      (change : ℕ → ℕ → Option ℕ) (amount : ℕ) (info : XToken) (s : State N)
      → (retotal rt change amount info s).1 ≡ s
  unfolding retotal
  retotal-kept change amount (nep141 symbol contract total stable decimals) s = ground arith
  retotal-kept change amount (erc20 symbol contract total stable decimals) s = ground arith
  retotal-kept change amount (bep20 symbol contract total stable decimals) s = ground arith
  retotal-kept change amount (fnd10 symbol total) s = refl
