-- ===== src/Verifier/Stakes/Claims.antt =====
-- Claims of shares leave the stakes as they are.
use fusotao_protocol.Base.{ℕ, ◌≡◌, refl, some, Option-cases, inl, inr, arith}
use fusotao_protocol.Base.Result.{ok, Result-cases}
use fusotao_protocol.Base.Runs.{EndsOrKeeps, keep_ok-cases}
use fusotao_protocol.Base.Dict.{Key, lookup, put, total-put, put-IsDict}
use fusotao_protocol.Base.Assoc.{find}
use fusotao_protocol.Verifier.State.{State, Config, Staking, Distribution}
use fusotao_protocol.Token.Types.{Origin, root, unsigned, signed}
use fusotao_protocol.Verifier.Stakes.{claim_stake, claim_shares}
use fusotao_protocol.Verifier.Seasons.{current_season, take_shares}
use fusotao_protocol.Verifier.Seasons.Laws.{take_shares-Keeps}
use fusotao_protocol.Verifier.Stakes.Balance.{stake_of, IsBalanced, same-IsBalanced}

module _ {N : Type 0} (cf : Config N) where
  -- An entry of a staker is replaced by one with the same amount.
  claimed-IsBalanced :
      (k : Key) (old new : Staking) (s s' : State N)
      → lookup k s.stakings ≡ some old
      → new.amount ≡ old.amount
      → s'.dominators ≡ s.dominators
      → s'.stakings ≡ put k (some new) s.stakings
      → IsBalanced cf s
      → IsBalanced cf s'
  claimed-IsBalanced k old new s s' e same dominators stakings (keyed, each) = (
    rw stakings (put-IsDict k (some new) s.stakings keyed),
    λ i.
        rw (dominators, stakings)
          (ground (arith, e, same, each i, total-put (stake_of i) k (some new) s.stakings keyed)),
  )

  claim_stake-IsBalanced :
      (signer dex start : ℕ) (old : Staking) (s : State N)
      → lookup (dex, signer) s.stakings ≡ some old
      → IsBalanced cf s
      → IsBalanced cf (claim_stake cf signer dex start old s).1
  unfolding claim_stake
  claim_stake-IsBalanced signer dex start old s e h =
      elim (Result-cases (current_season cf s.now start)) [
        | inr (inl (x, failed)) ↦ rw failed h
        | inr (inr failed) ↦ rw failed h
        | inl (season, e1) ↦
            let d : Distribution = record {
              from_season = old.from_season;
              to_season = season;
              staking = old.amount;
            } in
            let (dominators, (stakings, rest)) = take_shares-Keeps cf signer dex d s in
            elim (Result-cases (take_shares cf signer dex d s).0) [
              | inl (from, e2) ↦
                  claimed-IsBalanced (dex, signer) old (record old { from_season = from }) s
                    (claim_stake cf signer dex start old s).1 e refl
                    (ground (arith, e1, e2, dominators)) (ground (arith, e1, e2, stakings)) h
              | inr (inl (x, failed)) ↦
                  same-IsBalanced cf s (claim_stake cf signer dex start old s).1
                    (ground (arith, e1, failed, dominators)) (ground (arith, e1, failed, stakings))
                    h
              | inr (inr failed) ↦
                  same-IsBalanced cf s (claim_stake cf signer dex start old s).1
                    (ground (arith, e1, failed, dominators)) (ground (arith, e1, failed, stakings))
                    h
            ]
      ]

  -- A claim that ends well claims the stake of an entry.
  claim_shares-found :
      (origin : Origin) (target : ℕ) (s s' : State N)
      → claim_shares cf origin target s ≡ (ok tt, s')
      → (signer : ℕ) × (dex : ℕ) × (start : ℕ) × (old : Staking) × (lookup (dex, signer) s.stakings
          ≡ some old)
        × (claim_stake cf signer dex start old s ≡ (ok tt, s'))
  unfolding claim_shares
  claim_shares-found root target s s' h = absurd (let h' = h in ground arith)
  claim_shares-found unsigned target s s' h = absurd (let h' = h in ground arith)
  claim_shares-found (signed who) target s s' h = elim (Option-cases (cf.lookup_account target)) [
    | inl e ↦ absurd (let h' = h in ground (arith, e))
    | inr (dex, e) ↦ elim (Option-cases (find dex s.dominators)) [
      | inl e1 ↦ absurd (let h' = h in ground (arith, e, e1))
      | inr (d, e1) ↦ elim (Option-cases (lookup (dex, who) s.stakings)) [
        | inl e2 ↦ absurd (let h' = h in ground (arith, e, e1, e2))
        | inr (old, e2) ↦ (who, dex, d.start_from, old, e2, ground (arith, e, e1, e2))
      ]
    ]
  ]

  claim_shares-cases :
      (origin : Origin) (target : ℕ) (s : State N) → EndsOrKeeps s (claim_shares cf origin target s)
  unfolding claim_shares
  claim_shares-cases origin target s = keep_ok-cases s _

  pub claim_shares-IsBalanced :
      (origin : Origin) (target : ℕ) (s : State N)
      → IsBalanced cf s
      → IsBalanced cf (claim_shares cf origin target s).1
  claim_shares-IsBalanced origin target s h = elim (claim_shares-cases origin target s) [
    | inr same ↦ rw same h
    | inl (v, s', t) ↦
        let (signer, dex, start, old, e, run) = claim_shares-found origin target s s' t in
        let kept : IsBalanced cf (claim_stake cf signer dex start old s).1 =
          claim_stake-IsBalanced signer dex start old s e h in
        rw t (rw run at kept)
  ]
