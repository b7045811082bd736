-- ===== src/Token/Calls/Effects.antt =====
-- What the calls of pallet-fuso-token do to the storage as a whole.
use fusotao_protocol.Base.{
  ℕ, zero, suc, ◌+◌, ◌<◌, ◌≤◌, ◌≡◌, ◌≢◌, ◌⊎◌, refl, none, some, inl, inr, List, [], ◌∷◌, ◌++◌,
  arith, ap, sym, Option-cases,
}
use fusotao_protocol.Base.Dict.{IsDict}
use fusotao_protocol.Base.Result.{Result, ok, err, panicked}
use fusotao_protocol.Base.Action.{Action, keep_ok, bind_result}
use fusotao_protocol.Support.{XToken, nep141, erc20, bep20, fnd10, symbol_of}
use fusotao_protocol.Token.Types.{
  State, Runtime, Origin, root, unsigned, signed, Event, Error, token_issued, update, deposit_event,
}
use fusotao_protocol.Token.Ledger.{held}
use fusotao_protocol.Token.Sound.{
  IsSound, IsTransfer, IsTransfer-IsSound, same-IsTransfer, total_of,
}
use fusotao_protocol.Token.Accounts.{transfer_token}
use fusotao_protocol.Token.Accounts.Transfer.{transfer_token-IsTransfer}
use fusotao_protocol.Token.Issuance.{create}
use fusotao_protocol.Token.Issuance.Creation.{create-IsSound, create-next}
use fusotao_protocol.Token.Calls.{issue, mark_stable, transfer, associate_token, marked}

module _ {N : Type 0} (rt : Runtime N) where
  pub associate_token-IsTransfer :
      (origin : Origin) (chain : ℕ) (contract : List ℕ) (token : ℕ) (s : State N)
      → IsDict s.balances
      → IsTransfer s (associate_token rt origin chain contract token s).1
  unfolding associate_token
  associate_token-IsTransfer origin chain contract token s dict =
      same-IsTransfer dict (ground arith) (ground arith) (ground arith)

  -- A transfer is that of the trait, from the signer to the account that the address names.
  transfer-transfer_token :
      (who token target amount to : ℕ) (s : State N)
      → amount ≢ 0
      → rt.lookup_account target ≡ some to
      → (transfer rt (signed who) token target amount s).1
        ≡ (transfer_token rt who token amount to s).1
  unfolding transfer
  transfer-transfer_token who token target amount to s pos found = ground arith

  transfer-none :
      (who token target amount : ℕ) (s : State N)
      → (amount ≡ 0) ⊎ (rt.lookup_account target ≡ none)
      → (transfer rt (signed who) token target amount s).1 ≡ s
  unfolding transfer
  transfer-none who token target amount s nothing = ground arith

  pub transfer-IsTransfer :
      (origin : Origin) (token target amount : ℕ) (s : State N)
      → IsDict s.balances
      → IsTransfer s (transfer rt origin token target amount s).1
  transfer-IsTransfer root token target amount s dict =
      unfold transfer in same-IsTransfer dict refl refl refl
  transfer-IsTransfer unsigned token target amount s dict =
      unfold transfer in same-IsTransfer dict refl refl refl
  transfer-IsTransfer (signed who) token target zero s dict =
      rw (transfer-none who token target 0 s (inl refl)) (same-IsTransfer dict refl refl refl)
  transfer-IsTransfer (signed who) token target (suc a) s dict =
      elim (Option-cases (rt.lookup_account target)) [
        | inl nobody ↦
            rw (transfer-none who token target (suc a) s (inr nobody))
              (same-IsTransfer dict refl refl refl)
        | inr (to, found) ↦
            rw (transfer-transfer_token who token target (suc a) to s (omega arith) found)
              (transfer_token-IsTransfer rt who token (suc a) to s dict)
      ]

  -- The three outcomes of an issue: nothing, or the storage of `create` with an event, after the
  -- fee was burned.
  issue_cases :
      (P : State N → Type 0) (origin : Origin) (info : XToken) (s : State N)
      → P s
      → ((n : N) (events : List Event) (s' : State N)
          → s' ≡ (create rt info (record s { native = n })).1
          → P (record s' { events = events }))
      → P (issue rt origin info s).1
  unfolding issue
  issue_cases P root info s stays created = stays
  issue_cases P unsigned info s stays created = stays
  issue_cases P (signed who) info s stays created =
      after_fee (rt.native_burn_from who rt.burn_when_issue s.native)
    where
      announce : ℕ → Action (State N) Error (Unit {0})
      announce id = deposit_event (token_issued id (symbol_of info))

      made :
          (n : N) (r : Result Error ℕ × State N)
          → create rt info (record s { native = n }) ≡ r
          → P (keep_ok s (bind_result announce r)).1
      made n (ok id, s') e =
          created n (s'.events ++ token_issued id (symbol_of info) ∷ []) s' (sym (ap (λ r. r.1) e))
      made n (err e', s') e = stays
      made n (panicked, s') e = stays

      after_fee :
          (r : Result Error (Unit {0}) × N)
          → P
              (keep_ok s (
                bind_result
                  (λ paid s'. bind_result announce (create rt info s'))
                  (r.0, record s { native = r.1 }))).1
      after_fee (ok a, n) = made n (create rt info (record s { native = n })) refl
      after_fee (err e', n) = stays
      after_fee (panicked, n) = stays

  -- An issue keeps the storage sound.
  pub issue-IsSound :
      (origin : Origin) (info : XToken) (s : State N)
      → s.next_token_id + 1 < rt.token_ids
      → IsSound s
      → IsSound (issue rt origin info s).1
  issue-IsSound origin info s room v = issue_cases IsSound origin info s v λ n events s' made.
      let paid = IsTransfer-IsSound (same-IsTransfer v.keyed refl refl refl) v in
      let v' = create-IsSound rt info (record s { native = n }) room paid in
      let w : IsSound s' = rw made v' in
      IsTransfer-IsSound (same-IsTransfer w.keyed refl refl refl) w

  pub issue-next :
      (origin : Origin) (info : XToken) (s : State N)
      → s.next_token_id + 1 < rt.token_ids
      → (issue rt origin info s).1.next_token_id ≤ s.next_token_id + 1
  issue-next origin info s room =
      issue_cases (λ s'. s'.next_token_id ≤ s.next_token_id + 1) origin info s (omega arith)
        λ n events s' made. omega (
          arith,
          ap (λ s'. s'.next_token_id) made,
          create-next rt info (record s { native = n }) room,
        )

  -- The mark changes the stable flag of a token, never its issuance.
  marked-total : (info info' : XToken) → marked info ≡ some info' → total_of info' ≡ total_of info
  marked-total (nep141 symbol contract total stable decimals) info' h = ground arith
  marked-total (erc20 symbol contract total stable decimals) info' h = ground arith
  marked-total (bep20 symbol contract total stable decimals) info' h = ground arith
  marked-total (fnd10 symbol total) info' h = cc

  marked_fungible :
      (info info' : XToken) (symbol : List ℕ) (n : ℕ)
      → marked info ≡ some info'
      → info' ≢ fnd10 symbol n
  marked_fungible (nep141 symbol contract total stable decimals) info' a n h e = cc
  marked_fungible (erc20 symbol contract total stable decimals) info' a n h e = cc
  marked_fungible (bep20 symbol contract total stable decimals) info' a n h e = cc
  marked_fungible (fnd10 symbol total) info' a n h e = cc

  mark_stable_cases :
      (P : State N → Type 0) (origin : Origin) (id : ℕ) (s : State N)
      → P s
      → ((info info' : XToken)
          → s.tokens id ≡ some info
          → marked info ≡ some info'
          → P (record s { tokens = update id (some info') s.tokens }))
      → P (mark_stable rt origin id s).1
  unfolding mark_stable
  mark_stable_cases P unsigned id s stays marks = stays
  mark_stable_cases P (signed who) id s stays marks = stays
  mark_stable_cases P root id s stays marks = elim (Option-cases (s.tokens id)) [
    | inl unknown ↦ rw unknown stays
    | inr (info, known) ↦ elim (Option-cases (marked info)) [
      | inl unmarked ↦ rw (known, unmarked) stays
      | inr (info', e) ↦ rw (known, e) (marks info info' known e)
    ]
  ]

  pub mark_stable-IsSound :
      (origin : Origin) (id : ℕ) (s : State N) → IsSound s → IsSound (mark_stable rt origin id s).1
  unfolding held
  mark_stable-IsSound origin id s v = mark_stable_cases IsSound origin id s v λ info info' known e.
      record {
        keyed = v.keyed;
        backed = λ t. ground (arith, v.backed t, marked-total info info' e);
        bounded = λ t. ground (arith, v.bounded t, marked-total info info' e);
        fresh = λ t h. ground (arith, v.fresh t h);
        unminted = λ t symbol n h.
            ground (arith, v.unminted t symbol n, marked_fungible info info' symbol n e);
      }

  pub mark_stable-next :
      (origin : Origin) (id : ℕ) (s : State N)
      → (mark_stable rt origin id s).1.next_token_id ≡ s.next_token_id
  mark_stable-next origin id s =
      mark_stable_cases (λ s'. s'.next_token_id ≡ s.next_token_id) origin id s refl
        λ info info' known e. refl
