-- ===== src/Token/Issuance/Burning.antt =====
-- What a burn does, on every path, and that it undoes a mint.
use fusotao_protocol.Base.{
  ℕ, zero, suc, ◌+◌, ◌-◌, ◌<◌, ◌≤◌, ◌≡◌, ◌≢◌, refl, false, not, none, some, inl, inr, List, [], ◌∷◌,
  ◌++◌, ◌==◌, ◌&&◌, leb, arith, ap, ◌∙◌, Bool-cases, Option-cases,
}
use fusotao_protocol.Base.Words.{u128_mod, checked_add, checked_sub}
use fusotao_protocol.Base.Dict.{
  lookup, insert, put, total-put, put-IsDict, lookup-put, lookup-insert, Key,
}
use fusotao_protocol.Base.Result.{ok, err, Fails, Result-cases}
use fusotao_protocol.Support.{XToken, fnd10}
use fusotao_protocol.Token.Types.{
  AccountData, State, Runtime, or_default, amount_zero, update, token_burned,
}
use fusotao_protocol.Token.Ledger.{held, worth}
use fusotao_protocol.Token.Sound.{IsSound, total_of, issued}
use fusotao_protocol.Token.Decimals.{unify_decimals}
use fusotao_protocol.Token.Issuance.{retotal, with_total, do_burn, do_mint}
use fusotao_protocol.Token.Accounts.{unless_dead}
use fusotao_protocol.Token.Issuance.Minting.{minted, do_mint_adds}
use fusotao_protocol.Token.Issuance.Retotal.{
  retotal-kept, decimals_of, decimals_of-none, decimals_of-with_total, total_of-with_total,
  retotal_fungible, IsRetotal, IsRetotal-IsSound,
}

module _ {N : Type 0} (rt : Runtime N) where
  module _ (token who amount d u : ℕ) (info : XToken) (a : AccountData) (s : State N) where
    -- The storage after the burn of `u` from the account `a`.
    abbrev pub burned : State N
    burned = record s {
      balances = put (token, who) (unless_dead (record a { free = a.free - u })) s.balances;
      tokens = update token (some (with_total (total_of info - u) info)) s.tokens;
      events = s.events ++ token_burned token who u ∷ [];
    }

    -- Where the account covers it, the total and the account fall by the unified amount.
    pub do_burn_subtracts :
        s.tokens token ≡ some info
        → lookup (token, who) s.balances ≡ some a
        → decimals_of info ≡ some d
        → amount ≢ 0
        → unify_decimals rt.overflow_checks amount d ≡ ok u
        → u ≢ 0
        → u ≤ total_of info
        → u ≤ a.free
        → do_burn rt token who amount s ≡ (ok amount, burned)
    unfolding do_burn
    do_burn_subtracts known found decimals pos unified some_amount fits covered =
        ground (arith, ap (λ f. f s) (retotal_fungible rt checked_sub amount d info decimals))

    -- On any other path nothing is burned.
    pub do_burn_refused :
        s.tokens token ≡ some info
        → lookup (token, who) s.balances ≡ some a
        → decimals_of info ≡ some d
        → unify_decimals rt.overflow_checks amount d ≡ ok u
        → (not (u == 0) && (leb u (total_of info) && leb u a.free)) ≡ false
        → (do_burn rt token who amount s).1 ≡ s
    unfolding do_burn
    do_burn_refused known found decimals unified refused =
        ground (arith, ap (λ f. f s) (retotal_fungible rt checked_sub amount d info decimals))

    burned-IsRetotal :
        IsSound s
        → s.tokens token ≡ some info
        → lookup (token, who) s.balances ≡ some a
        → decimals_of info ≡ some d
        → u ≤ total_of info
        → u ≤ a.free
        → IsRetotal token (total_of info - u) info s burned
    unfolding held
    burned-IsRetotal v known found decimals fits covered =
        let after = unless_dead (record a { free = a.free - u }) in
        record {
          keyed = put-IsDict (token, who) after s.balances v.keyed;
          next_kept = refl;
          known = known;
          described = refl;
          within = ground (arith, v.bounded token);
          covered = ground (
            arith,
            v.backed token,
            total-put (worth token) (token, who) after s.balances v.keyed,
          );
          no_gain =
              λ j apart. ground (arith, total-put (worth j) (token, who) after s.balances v.keyed);
          fungible = λ e. ground arith;
        }

    do_burn_fungible-IsSound :
        IsSound s
        → s.tokens token ≡ some info
        → lookup (token, who) s.balances ≡ some a
        → decimals_of info ≡ some d
        → amount ≢ 0
        → unify_decimals rt.overflow_checks amount d ≡ ok u
        → IsSound (do_burn rt token who amount s).1
    do_burn_fungible-IsSound v known found decimals pos unified =
        elim (Bool-cases (not (u == 0) && (leb u (total_of info) && leb u a.free))) [
          | inl passes ↦
              rw
                (do_burn_subtracts known found decimals pos unified (ground arith) (ground arith)
                  (ground arith))
                (IsRetotal-IsSound token (total_of info - u) info s burned
                  (burned-IsRetotal v known found decimals (ground arith) (ground arith)) v)
          | inr refused ↦ rw (do_burn_refused known found decimals unified refused) v
        ]

  do_burn_zero : (token who : ℕ) (s : State N) → do_burn rt token who 0 s ≡ (err amount_zero, s)
  unfolding do_burn
  do_burn_zero token who s = refl

  do_burn_unknown :
      (token who amount : ℕ) (s : State N)
      → s.tokens token ≡ none
      → (do_burn rt token who amount s).1 ≡ s
  unfolding do_burn
  do_burn_unknown token who amount s unknown = ground arith

  do_burn_no_account :
      (token who amount d : ℕ) (info : XToken) (s : State N)
      → s.tokens token ≡ some info
      → decimals_of info ≡ some d
      → lookup (token, who) s.balances ≡ none
      → (do_burn rt token who amount s).1 ≡ s
  unfolding do_burn
  do_burn_no_account token who amount d info s known decimals missing =
      ground (arith, ap (λ f. f s) (retotal_fungible rt checked_sub amount d info decimals))

  do_burn_bad_decimals :
      (token who amount d : ℕ) (info : XToken) (s : State N)
      → s.tokens token ≡ some info
      → decimals_of info ≡ some d
      → Fails (unify_decimals rt.overflow_checks amount d)
      → (do_burn rt token who amount s).1 ≡ s
  unfolding do_burn
  do_burn_bad_decimals token who amount d info s known decimals (inl (e, bad)) =
      ground (arith, ap (λ f. f s) (retotal_fungible rt checked_sub amount d info decimals))
  do_burn_bad_decimals token who amount d info s known decimals (inr bad) =
      ground (arith, ap (λ f. f s) (retotal_fungible rt checked_sub amount d info decimals))

  -- A FND10 token of a sound storage is never burned.
  do_burn_fnd10 :
      (token who amount : ℕ) (symbol : List ℕ) (n : ℕ) (s : State N)
      → IsSound s
      → s.tokens token ≡ some (fnd10 symbol n)
      → do_burn rt token who amount s ≡ (err amount_zero, s)
  unfolding do_burn retotal
  do_burn_fnd10 token who amount symbol n s v known =
      ground (arith, v.unminted token symbol n known)

  -- Every burn keeps the storage sound.
  pub do_burn-IsSound :
      (token who amount : ℕ) (s : State N) → IsSound s → IsSound (do_burn rt token who amount s).1
  do_burn-IsSound token who zero s v = rw (do_burn_zero token who s) v
  do_burn-IsSound token who (suc b) s v = elim (Option-cases (s.tokens token)) [
    | inl unknown ↦ rw (do_burn_unknown token who (suc b) s unknown) v
    | inr (info, known) ↦ elim (Option-cases (decimals_of info)) [
      | inl kind ↦
          let (symbol, n, e) = decimals_of-none info kind in
          rw (do_burn_fnd10 token who (suc b) symbol n s v (known ∙ ap some e)) v
      | inr (d, decimals) ↦ elim (Result-cases (unify_decimals rt.overflow_checks (suc b) d)) [
        | inl (u, unified) ↦ elim (Option-cases (lookup (token, who) s.balances)) [
          | inl missing ↦
              rw (do_burn_no_account token who (suc b) d info s known decimals missing) v
          | inr (a, found) ↦
              do_burn_fungible-IsSound token who (suc b) d u info a s v known found decimals
                (omega arith) unified
        ]
        | inr failed ↦ rw (do_burn_bad_decimals token who (suc b) d info s known decimals failed) v
      ]
    ]
  ]

  -- Where the mint succeeds by the conditions of `do_mint_adds`, burning the same amount from the
  -- same account succeeds and restores every balance and every issuance.
  pub do_burn-do_mint :
      (token who amount d u : ℕ) (info : XToken) (s : State N)
      → s.tokens token ≡ some info
      → decimals_of info ≡ some d
      → amount ≢ 0
      → unify_decimals rt.overflow_checks amount d ≡ ok u
      → u ≢ 0
      → total_of info + u < u128_mod
      → (or_default (lookup (token, who) s.balances)).free + u < u128_mod
      → let (r, s') = do_burn rt token who amount (do_mint rt token who amount s).1 in
        (r ≡ ok amount)
        × ((k : Key) → or_default (lookup k s'.balances) ≡ or_default (lookup k s.balances))
        × ((t : ℕ) → issued (s'.tokens t) ≡ issued (s.tokens t))
  do_burn-do_mint token who amount d u info s known decimals pos unified some_amount fits room =
      let to = or_default (lookup (token, who) s.balances) in
      let after : AccountData = record to { free = to.free + u } in
      let info' = with_total (total_of info + u) info in
      rw
        (
          do_mint_adds rt token who amount d u info s known decimals pos unified some_amount fits
              room,
          do_burn_subtracts token who amount d u info' after (minted rt token who amount d u info s)
              (ground arith)
              (ground (arith, lookup-insert (token, who) (token, who) after s.balances))
              (decimals_of-with_total (total_of info + u) info ∙ decimals) pos unified some_amount
              (ground (arith, total_of-with_total (total_of info + u) info)) (ground arith),
        )
        (
          refl,
          (λ k. ground (
            arith,
            lookup-put k (token, who) (unless_dead (record after { free = after.free - u }))
                (insert (token, who) after s.balances),
            lookup-insert k (token, who) after s.balances,
          )),
          (λ t. ground (
            arith,
            total_of-with_total (total_of info' - u) info',
            total_of-with_total (total_of info + u) info,
          )),
        )

  -- Neither uses up an identifier.
  pub do_mint-next :
      (token who amount : ℕ) (s : State N)
      → (do_mint rt token who amount s).1.next_token_id ≡ s.next_token_id
  unfolding do_mint
  do_mint-next token who amount s = elim (Option-cases (s.tokens token)) [
    | inl unknown ↦ ground arith
    | inr (info, known) ↦ ground (arith, retotal-kept rt checked_add amount info s)
  ]

  pub do_burn-next :
      (token who amount : ℕ) (s : State N)
      → (do_burn rt token who amount s).1.next_token_id ≡ s.next_token_id
  unfolding do_burn
  do_burn-next token who amount s = elim (Option-cases (s.tokens token)) [
    | inl unknown ↦ ground arith
    | inr (info, known) ↦ ground (arith, retotal-kept rt checked_sub amount info s)
  ]
