-- ===== src/Token/Issuance/Minting.antt =====
-- What a mint does, on every path.
use fusotao_protocol.Base.{
  ℕ, zero, suc, ◌+◌, ◌<◌, ◌≡◌, ◌≢◌, refl, false, not, none, some, inl, inr, List, [], ◌∷◌, ◌++◌,
  ◌==◌, ◌&&◌, ltb, arith, ap, ◌∙◌, Bool-cases, Option-cases,
}
use fusotao_protocol.Base.Words.{u128_mod, checked_add}
use fusotao_protocol.Base.Dict.{IsDict, lookup, insert, total-put, insert-IsDict}
use fusotao_protocol.Base.Result.{ok, err, Fails, Result-cases}
use fusotao_protocol.Support.{XToken, fnd10}
use fusotao_protocol.Token.Types.{
  AccountData, State, Runtime, or_default, amount_zero, update, token_minted,
}
use fusotao_protocol.Token.Ledger.{held, worth}
use fusotao_protocol.Token.Sound.{IsSound, total_of}
use fusotao_protocol.Token.Decimals.{unify_decimals}
use fusotao_protocol.Token.Issuance.{retotal, with_total, do_mint}
use fusotao_protocol.Token.Issuance.Retotal.{
  decimals_of, decimals_of-none, retotal_fungible, IsRetotal, IsRetotal-IsSound,
}

module _ {N : Type 0} (rt : Runtime N) where
  module _ (token who amount d u : ℕ) (info : XToken) (s : State N) where
    -- The storage after the mint of `u`.
    abbrev pub minted : State N
    minted =
        let to = or_default (lookup (token, who) s.balances) in
        record s {
          balances = insert (token, who) (record to { free = to.free + u }) s.balances;
          tokens = update token (some (with_total (total_of info + u) info)) s.tokens;
          events = s.events ++ token_minted token who u ∷ [];
        }

    -- A mint of a positive amount of a fungible token, whose unified amount is positive and fits
    -- both sums, adds the unified amount to the total of the token and to the free balance of the
    -- account and deposits one event; nothing else changes.
    pub do_mint_adds :
        s.tokens token ≡ some info
        → decimals_of info ≡ some d
        → amount ≢ 0
        → unify_decimals rt.overflow_checks amount d ≡ ok u
        → u ≢ 0
        → total_of info + u < u128_mod
        → (or_default (lookup (token, who) s.balances)).free + u < u128_mod
        → do_mint rt token who amount s ≡ (ok tt, minted)
    unfolding do_mint
    do_mint_adds known decimals pos unified some_amount fits room =
        ground (arith, ap (λ f. f s) (retotal_fungible rt checked_add amount d info decimals))

    -- On any other path nothing is minted.
    pub do_mint_refused :
        s.tokens token ≡ some info
        → decimals_of info ≡ some d
        → unify_decimals rt.overflow_checks amount d ≡ ok u
        → (not (u == 0)
            && (ltb (total_of info + u) u128_mod
                && ltb ((or_default (lookup (token, who) s.balances)).free + u) u128_mod))
          ≡ false
        → (do_mint rt token who amount s).1 ≡ s
    unfolding do_mint
    do_mint_refused known decimals unified refused =
        ground (arith, ap (λ f. f s) (retotal_fungible rt checked_add amount d info decimals))

    minted-IsRetotal :
        IsSound s
        → s.tokens token ≡ some info
        → decimals_of info ≡ some d
        → total_of info + u < u128_mod
        → IsRetotal token (total_of info + u) info s minted
    unfolding held
    minted-IsRetotal v known decimals fits =
        let to = or_default (lookup (token, who) s.balances) in
        let after : AccountData = record to { free = to.free + u } in
        record {
          keyed = insert-IsDict (token, who) after s.balances v.keyed;
          next_kept = refl;
          known = known;
          described = refl;
          within = fits;
          covered = ground (
            arith,
            v.backed token,
            total-put (worth token) (token, who) (some after) s.balances v.keyed,
          );
          no_gain = λ j apart.
              ground (arith, total-put (worth j) (token, who) (some after) s.balances v.keyed);
          fungible = λ e. ground arith;
        }

    -- The sum and the issuance of the token grow by as much.
    pub held-minted : IsDict s.balances → held token minted ≡ held token s + u
    unfolding held
    held-minted dict =
        let to = or_default (lookup (token, who) s.balances) in
        ground (
          arith,
          total-put (worth token) (token, who) (some (record to { free = to.free + u })) s.balances
              dict,
        )

    do_mint_fungible-IsSound :
        IsSound s
        → s.tokens token ≡ some info
        → decimals_of info ≡ some d
        → amount ≢ 0
        → unify_decimals rt.overflow_checks amount d ≡ ok u
        → IsSound (do_mint rt token who amount s).1
    do_mint_fungible-IsSound v known decimals pos unified =
        elim (Bool-cases (
          not (u == 0)
          && (ltb (total_of info + u) u128_mod
              && ltb ((or_default (lookup (token, who) s.balances)).free + u) u128_mod))) [
                | inl passes ↦
                    rw
                      (do_mint_adds known decimals pos unified (ground arith) (ground arith)
                        (ground arith))
                      (IsRetotal-IsSound token (total_of info + u) info s minted
                        (minted-IsRetotal v known decimals (ground arith)) v)
                | inr refused ↦ rw (do_mint_refused known decimals unified refused) v
              ]

  do_mint_zero : (token who : ℕ) (s : State N) → do_mint rt token who 0 s ≡ (ok tt, s)
  unfolding do_mint
  do_mint_zero token who s = refl

  do_mint_unknown :
      (token who amount : ℕ) (s : State N)
      → s.tokens token ≡ none
      → (do_mint rt token who amount s).1 ≡ s
  unfolding do_mint
  do_mint_unknown token who amount s unknown = ground arith

  do_mint_bad_decimals :
      (token who amount d : ℕ) (info : XToken) (s : State N)
      → s.tokens token ≡ some info
      → decimals_of info ≡ some d
      → Fails (unify_decimals rt.overflow_checks amount d)
      → (do_mint rt token who amount s).1 ≡ s
  unfolding do_mint
  do_mint_bad_decimals token who amount d info s known decimals (inl (e, bad)) =
      ground (arith, ap (λ f. f s) (retotal_fungible rt checked_add amount d info decimals))
  do_mint_bad_decimals token who amount d info s known decimals (inr bad) =
      ground (arith, ap (λ f. f s) (retotal_fungible rt checked_add amount d info decimals))

  -- In a sound storage a mint of a positive amount of a FND10 token fails with `AmountZero` and
  -- changes nothing, since the code takes the total of the token for the amount.
  pub do_mint_fnd10 :
      (token who amount : ℕ) (symbol : List ℕ) (n : ℕ) (s : State N)
      → IsSound s
      → s.tokens token ≡ some (fnd10 symbol n)
      → amount ≢ 0
      → do_mint rt token who amount s ≡ (err amount_zero, s)
  unfolding do_mint retotal
  do_mint_fnd10 token who amount symbol n s v known pos =
      ground (arith, v.unminted token symbol n known)

  -- Every mint keeps the storage sound.
  pub do_mint-IsSound :
      (token who amount : ℕ) (s : State N) → IsSound s → IsSound (do_mint rt token who amount s).1
  do_mint-IsSound token who zero s v = rw (do_mint_zero token who s) v
  do_mint-IsSound token who (suc a) s v = elim (Option-cases (s.tokens token)) [
    | inl unknown ↦ rw (do_mint_unknown token who (suc a) s unknown) v
    | inr (info, known) ↦ elim (Option-cases (decimals_of info)) [
      | inl kind ↦
          let (symbol, n, e) = decimals_of-none info kind in
          rw (do_mint_fnd10 token who (suc a) symbol n s v (known ∙ ap some e) (omega arith)) v
      | inr (d, decimals) ↦ elim (Result-cases (unify_decimals rt.overflow_checks (suc a) d)) [
        | inl (u, unified) ↦
            do_mint_fungible-IsSound token who (suc a) d u info s v known decimals (omega arith)
              unified
        | inr failed ↦ rw (do_mint_bad_decimals token who (suc a) d info s known decimals failed) v
      ]
    ]
  ]
