-- ===== src/Token/Sound.antt =====
-- The invariant of pallet-fuso-token's storage, and what the calls on accounts have in common.
use fusotao_protocol.Base.{ℕ, ◌≤◌, ◌<◌, ◌≡◌, sym, ap, ◌∙◌, Option, none, some, List, arith}
use fusotao_protocol.Base.Words.{u128_mod}
use fusotao_protocol.Base.Dict.{IsDict, total}
use fusotao_protocol.Support.{XToken, nep141, erc20, bep20, fnd10}
use fusotao_protocol.Token.Types.{State}
use fusotao_protocol.Token.Ledger.{held, worth}

-- The issuance that a description records.
abbrev pub total_of : XToken → ℕ
total_of (nep141 symbol contract total stable decimals) = total
total_of (erc20 symbol contract total stable decimals) = total
total_of (bep20 symbol contract total stable decimals) = total
total_of (fnd10 symbol total) = total

abbrev pub issued : Option XToken → ℕ
issued none = 0
issued (some info) = total_of info

-- No account is stored twice; the accounts hold no more of a token than was issued, which fits
-- `u128`; the identifiers from `next_token_id` on are free; no FND10 token was minted.
pub record IsSound {N : Type 0} (s : State N) : Type 0 where
  pub keyed : IsDict s.balances
  pub backed : (t : ℕ) → held t s ≤ issued (s.tokens t)
  pub bounded : (t : ℕ) → issued (s.tokens t) < u128_mod
  pub fresh : (t : ℕ) → s.next_token_id ≤ t → s.tokens t ≡ none
  pub unminted : (t : ℕ) (symbol : List ℕ) (n : ℕ) → s.tokens t ≡ some (fnd10 symbol n) → n ≡ 0

-- A change of accounts only, which raises no sum.
pub record IsTransfer {N : Type 0} (s s' : State N) : Type 0 where
  pub keyed : IsDict s'.balances
  pub tokens_kept : s'.tokens ≡ s.tokens
  pub next_kept : s'.next_token_id ≡ s.next_token_id
  pub no_gain : (t : ℕ) → held t s' ≤ held t s

pub IsTransfer-IsSound : {N : Type 0} {s s' : State N} → IsTransfer s s' → IsSound s → IsSound s'
IsTransfer-IsSound {s} {s'} step v = record {
  keyed = step.keyed;
  backed = λ t. rw (same t) (omega (arith, step.no_gain t, v.backed t));
  bounded = λ t. rw (same t) (v.bounded t);
  fresh = λ t h. same t ∙ v.fresh t (omega (arith, step.next_kept));
  unminted = λ t symbol n h. v.unminted t symbol n (sym (same t) ∙ h);
}
  where
    same : (t : ℕ) → s'.tokens t ≡ s.tokens t
    same t = ap (λ f. f t) step.tokens_kept

-- Events, the native ledger and the two name tables play no part.
pub same-IsTransfer :
    {N : Type 0} {s s' : State N}
    → IsDict s.balances
    → s'.balances ≡ s.balances
    → s'.tokens ≡ s.tokens
    → s'.next_token_id ≡ s.next_token_id
    → IsTransfer s s'
unfolding held
same-IsTransfer dict balances tokens next = record {
  keyed = rw balances dict;
  tokens_kept = tokens;
  next_kept = next;
  no_gain = λ t. omega (arith, ap (total (worth t)) balances);
}
