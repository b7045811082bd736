-- ===== src/Verifier/Seasons/Shares.antt =====
-- The shares that are paid, token by token, against the sum that the query reports.
use fusotao_protocol.Base.{
  ℕ, zero, suc, ◌+◌, ◌≡◌, true, List, [], ◌∷◌, ◌==◌, ◌||◌, Bool-cases, inl, inr, arith,
}
use fusotao_protocol.Base.Words.{u128_mod, add_in}
use fusotao_protocol.Base.Result.{ok, >>=-eq-ok}
use fusotao_protocol.Base.Assoc.{entry}
use fusotao_protocol.Verifier.State.{Failure, Config, Bonus}
use fusotao_protocol.Verifier.Seasons.{
  is_empty, season_shares, gather_shares, add_pending, pending_seasons,
}

unfoldable pub in_all : List (ℕ × ℕ) → ℕ
in_all [] = 0
in_all (e ∷ es) = e.1 + in_all es

module _ {N : Type 0} (cf : Config N) (checks : cf.runtime.overflow_checks ≡ true) where
  in_all-entry :
      (share k : ℕ) (es es' : List (ℕ × ℕ))
      → entry {E = Failure} (λ old. add_in u128_mod cf.runtime.overflow_checks old share) share k es
        ≡ ok es'
      → in_all es' ≡ in_all es + share
  unfolding in_all entry
  in_all-entry share k [] es' h = ground arith
  in_all-entry share k (e ∷ es) es' h = grind (arith, checks, in_all-entry share k es)

  season_shares-sum :
      (part : ℕ → ℕ) (profits shares shares' : List (ℕ × ℕ)) (before after : ℕ)
      → season_shares cf part profits shares ≡ ok shares'
      → add_pending cf part profits before ≡ ok after
      → in_all shares' + before ≡ in_all shares + after
  unfolding season_shares add_pending
  season_shares-sum part [] shares shares' before after h k = ground arith
  season_shares-sum part ((token, profit) ∷ profits) shares shares' before after h k =
      let (mid, e, h1) =
        >>=-eq-ok
          (entry (λ old. add_in u128_mod cf.runtime.overflow_checks old (part profit)) (part profit)
            token shares)
          _ h in
      let (sum, e1, k1) =
        >>=-eq-ok (add_in u128_mod cf.runtime.overflow_checks before (part profit)) _ k in
      ground (
        arith,
        checks,
        e1,
        in_all-entry (part profit) token shares mid e,
        season_shares-sum part profits mid shares' sum after h1 k1,
      )

  -- The shares of a number of seasons.
  shares_sum :
      (bonuses : ℕ → Bonus) (staking rounds season : ℕ) (shares shares' : List (ℕ × ℕ))
      (before after : ℕ)
      → gather_shares cf bonuses staking rounds season shares ≡ ok shares'
      → pending_seasons cf bonuses staking rounds season before ≡ ok after
      → in_all shares' + before ≡ in_all shares + after
  unfolding gather_shares pending_seasons
  shares_sum bonuses staking zero season shares shares' before after h k = ground arith
  shares_sum bonuses staking (suc rounds) season shares shares' before after h k =
      elim (Bool-cases (((bonuses season).staked == 0) || is_empty (bonuses season).profit)) [
        | inl skip ↦
            shares_sum bonuses staking rounds (season + 1) shares shares' before after
              (ground (arith, skip, h)) (ground (arith, skip, k))
        | inr counts ↦
            let part = cf.portion staking (bonuses season).staked in
            let (mid, e, h1) =
              >>=-eq-ok (season_shares cf part (bonuses season).profit shares)
                (gather_shares cf bonuses staking rounds (season + 1)) {v = shares'}
                (ground (arith, counts, h)) in
            let (sum, e1, k1) =
              >>=-eq-ok (add_pending cf part (bonuses season).profit before)
                (pending_seasons cf bonuses staking rounds (season + 1)) {v = after}
                (ground (arith, counts, k)) in
            omega (
              arith,
              season_shares-sum part (bonuses season).profit shares mid before sum e e1,
              shares_sum bonuses staking rounds (season + 1) mid shares' sum after h1 k1,
            )
      ]

  -- In a build with overflow checks, the shares that a claim gathers over a number of seasons, all
  -- tokens together, are what the query for pending shares reports for the same seasons and stake,
  -- where neither panics.
  pub gather_shares-pending :
      (bonuses : ℕ → Bonus) (staking rounds season : ℕ) (shares : List (ℕ × ℕ)) (total : ℕ)
      → gather_shares cf bonuses staking rounds season [] ≡ ok shares
      → pending_seasons cf bonuses staking rounds season 0 ≡ ok total
      → in_all shares ≡ total
  unfolding in_all
  gather_shares-pending bonuses staking rounds season shares total h k =
      omega (arith, shares_sum bonuses staking rounds season [] shares 0 total h k)
