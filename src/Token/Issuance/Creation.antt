-- ===== src/Token/Issuance/Creation.antt =====
-- What `create` accepts, and that a new token starts with no issuance.
use fusotao_protocol.Base.{
  ℕ, ◌+◌, ◌<◌, ◌≤◌, ◌≡◌, ◌↔◌, true, none, some, inl, inr, List, length, arith, ap,
}
use fusotao_protocol.Base.Result.{ok, Fails, Result-cases}
use fusotao_protocol.Support.{XToken, nep141, erc20, bep20, fnd10}
use fusotao_protocol.Token.Types.{State, Runtime, update}
use fusotao_protocol.Base.Dict.{total}
use fusotao_protocol.Token.Ledger.{held, worth}
use fusotao_protocol.Token.Sound.{IsSound, issued}
use fusotao_protocol.Token.Issuance.{register_token, with_total, create}
use fusotao_protocol.Token.Issuance.Retotal.{total_of-with_total}

module _ {N : Type 0} (info : XToken) (s s' : State N) where
  created-IsSound :
      (s'.tokens ≡ update s.next_token_id (some (with_total 0 info)) s.tokens)
        × (s'.balances ≡ s.balances)
        × (s'.next_token_id ≡ s.next_token_id + 1)
      → IsSound s
      → IsSound s'
  unfolding held
  created-IsSound (described, same, next) v = record {
    keyed = rw same v.keyed;
    backed = λ t. ground (
      arith,
      ap (total (worth t)) same,
      ap (λ f. f t) described,
      v.backed t,
      v.fresh t,
      total_of-with_total 0 info,
    );
    bounded = λ t. ground (arith, ap (λ f. f t) described, v.bounded t, total_of-with_total 0 info);
    fresh = λ t h. ground (arith, ap (λ f. f t) described, v.fresh t);
    unminted = λ t symbol n h. ground (
      arith,
      ap (λ f. f t) described,
      ap issued h,
      total_of-with_total 0 info,
      v.unminted t symbol n,
    );
  }

module _ {N : Type 0} (rt : Runtime N) where
  -- A symbol of 2 to 8 ASCII characters.
  abbrev pub IsSymbol : List ℕ → Type 0
  IsSymbol symbol = (rt.is_ascii symbol ≡ true) × (2 ≤ length symbol) × (length symbol ≤ 8)

  -- What a token has to meet to be created.
  abbrev pub IsCreatable : XToken → State N → Type 0
  IsCreatable (nep141 symbol contract total stable decimals) s =
      IsSymbol symbol
      × (decimals ≤ 24)
      × (2 < length contract)
      × (length contract < 120)
      × (s.token_by_name contract ≡ none)
  IsCreatable (erc20 symbol contract total stable decimals) s =
      IsSymbol symbol × (decimals ≤ 24) × (length contract ≡ 20)
  IsCreatable (bep20 symbol contract total stable decimals) s =
      IsSymbol symbol × (decimals ≤ 24) × (length contract ≡ 20)
  IsCreatable (fnd10 symbol total) s = IsSymbol symbol

  register_token_iff :
      (id : ℕ) (info : XToken) (s : State N)
      → ((register_token rt id info s).0 ≡ ok tt) ↔ IsCreatable info s
  unfolding register_token
  register_token_iff id (nep141 symbol contract total stable decimals) s = ground arith
  register_token_iff id (erc20 symbol contract total stable decimals) s = ground arith
  register_token_iff id (bep20 symbol contract total stable decimals) s = ground arith
  register_token_iff id (fnd10 symbol total) s = ground arith

  register_token-kept :
      (id : ℕ) (info : XToken) (s : State N)
      → let s' = (register_token rt id info s).1 in
        (s'.balances ≡ s.balances) × (s'.tokens ≡ s.tokens) × (s'.next_token_id ≡ s.next_token_id)
  unfolding register_token
  register_token-kept id (nep141 symbol contract total stable decimals) s = ground arith
  register_token-kept id (erc20 symbol contract total stable decimals) s = ground arith
  register_token-kept id (bep20 symbol contract total stable decimals) s = ground arith
  register_token-kept id (fnd10 symbol total) s = ground arith

  -- While identifiers are left, `create` succeeds on the tokens that meet the rules for their
  -- kind, and on no others, and gives them the next identifier.
  pub create_iff :
      (info : XToken) (s : State N)
      → s.next_token_id + 1 < rt.token_ids
      → ((create rt info s).0 ≡ ok s.next_token_id) ↔ IsCreatable info s
  unfolding create
  create_iff info s room =
      let check = (register_token rt s.next_token_id info s).0 in
      let kept = register_token-kept s.next_token_id info s in
      (
        (λ created. elim (Result-cases check) [
          | inl (a, passed) ↦ (register_token_iff s.next_token_id info s).0 passed
          | inr (inl (e, failed)) ↦ absurd (ground arith)
          | inr (inr failed) ↦ absurd (ground arith)
        ]),
        (λ valid. ground (arith, (register_token_iff s.next_token_id info s).1 valid, kept)),
      )

  -- While identifiers are left, a token that meets the rules is stored under the next identifier
  -- with no issuance, whatever total it was given, and the next identifier grows by one; the other
  -- tokens and all balances stay.
  pub create_registers :
      (info : XToken) (s : State N)
      → s.next_token_id + 1 < rt.token_ids
      → IsCreatable info s
      → let s' = (create rt info s).1 in
        (s'.tokens ≡ update s.next_token_id (some (with_total 0 info)) s.tokens)
        × (s'.balances ≡ s.balances)
        × (s'.next_token_id ≡ s.next_token_id + 1)
  unfolding create
  create_registers info s room valid = ground (
    arith,
    (register_token_iff s.next_token_id info s).1 valid,
    register_token-kept s.next_token_id info s,
  )

  create_refused :
      (info : XToken) (s : State N)
      → Fails (register_token rt s.next_token_id info s).0
      → (create rt info s).1 ≡ s
  unfolding create
  create_refused info s (inl (e, failed)) = ground arith
  create_refused info s (inr failed) = ground arith

  -- Creating a token keeps the storage sound.
  pub create-IsSound :
      (info : XToken) (s : State N)
      → s.next_token_id + 1 < rt.token_ids
      → IsSound s
      → IsSound (create rt info s).1
  create-IsSound info s room v = elim (Result-cases (register_token rt s.next_token_id info s).0) [
    | inr failed ↦ rw (create_refused info s failed) v
    | inl (a, passed) ↦
        created-IsSound info s (create rt info s).1
          (create_registers info s room ((register_token_iff s.next_token_id info s).0 passed)) v
  ]

  pub create-next :
      (info : XToken) (s : State N)
      → s.next_token_id + 1 < rt.token_ids
      → (create rt info s).1.next_token_id ≤ s.next_token_id + 1
  unfolding create
  create-next info s room = ground (arith, register_token-kept s.next_token_id info s)
