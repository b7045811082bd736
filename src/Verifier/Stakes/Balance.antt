-- ===== src/Verifier/Stakes/Balance.antt =====
-- The stakes of each dominator add up to its entry, and give it its status.
use fusotao_protocol.Base.{
  ℕ, ◌≡◌, Bool, true, Option, none, some, ◌==◌, leb, ltb, if◌then◌else◌, Option-cases, inl, inr,
  arith,
}
use fusotao_protocol.Base.Runs.{EndsOrKeeps, keep_ok-cases, keep_ok-holds}
use fusotao_protocol.Base.Dict.{total, IsDict, total-put, put-IsDict}
use fusotao_protocol.Base.Assoc.{find, store, find-store}
use fusotao_protocol.Verifier.State.{
  State, Config, Dominator, Staking, dominator_registered, dominator_inactive, dominator_active,
  dominator_evicted,
}
use fusotao_protocol.Token.Types.{Origin, root, unsigned, signed}
use fusotao_protocol.Verifier.Stakes.{stake_on, unstake_from, stake, unstake}
use fusotao_protocol.Verifier.Stakes.Books.{
  Restakes, stake_on-effect, unstake_from-effect, next_status,
}

-- What an entry adds to the stakes of a dominator.
abbrev pub stake_of : ℕ → ℕ → ℕ → Staking → ℕ
stake_of id dominator staker st = if dominator == id then st.amount else 0

abbrev pub staked_by : Option Dominator → ℕ
staked_by none = 0
staked_by (some d) = d.staked

-- Does the status agree with the stakes?
unfoldable pub is_graded : {N : Type 0} → Config N → Option Dominator → Bool
is_graded cf none = true
is_graded cf (some d) =
    if d.status == dominator_registered
    then d.staked == 0
    else if d.status == dominator_active
    then leb cf.dominator_online_threshold d.staked
    else if d.status == dominator_inactive
    then ltb d.staked cf.dominator_online_threshold
    else d.status == dominator_evicted

abbrev pub IsBalanced : {N : Type 0} → Config N → State N → Type 0
IsBalanced cf s =
    IsDict s.stakings
    × ((id : ℕ)
        → (total (stake_of id) s.stakings ≡ staked_by (find id s.dominators))
          × (is_graded cf (find id s.dominators) ≡ true))

module _ {N : Type 0} (cf : Config N) where
  Restakes-IsBalanced :
      (id staker : ℕ) (s s' : State N)
      → Restakes cf id staker s s'
      → IsBalanced cf s
      → IsBalanced cf s'
  unfolding is_graded
  Restakes-IsBalanced id staker s s' (d, staked, entry, e, live, dominators, stakings, sums)
        (keyed, each) =
      (
        rw stakings (put-IsDict (id, staker) entry s.stakings keyed),
        λ i.
            rw (dominators, stakings)
              (ground (
                arith,
                e,
                each i,
                live,
                sums,
                total-put (stake_of i) (id, staker) entry s.stakings keyed,
                find-store i id
                    (record d { staked = staked; status = next_status cf d.status staked })
                    s.dominators,
              )),
      )

module _ {N : Type 0} (cf : Config N) (checks : cf.runtime.overflow_checks ≡ true) where
  pub stake_on-cases :
      (staker id amount : ℕ) (s : State N) → EndsOrKeeps s (stake_on cf staker id amount s)
  unfolding stake_on
  stake_on-cases staker id amount s = keep_ok-cases s _

  pub stake_on-IsBalanced :
      (staker id amount : ℕ) (s : State N)
      → IsBalanced cf s
      → IsBalanced cf (stake_on cf staker id amount s).1
  stake_on-IsBalanced staker id amount s h = elim (stake_on-cases staker id amount s) [
    | inl (v, s', t) ↦ rw t (
        Restakes-IsBalanced cf id staker s s' (stake_on-effect cf checks staker id amount s s' t) h)
    | inr same ↦ rw same h
  ]

  pub unstake_from-cases :
      (staker id amount : ℕ) (s : State N) → EndsOrKeeps s (unstake_from cf staker id amount s)
  unfolding unstake_from
  unstake_from-cases staker id amount s = keep_ok-cases s _

  pub unstake_from-IsBalanced :
      (staker id amount : ℕ) (s : State N)
      → IsBalanced cf s
      → IsBalanced cf (unstake_from cf staker id amount s).1
  unstake_from-IsBalanced staker id amount s h = elim (unstake_from-cases staker id amount s) [
    | inl (v, s', t) ↦ rw t (
        Restakes-IsBalanced cf id staker s s'
          (unstake_from-effect cf checks staker id amount s s' t) h)
    | inr same ↦ rw same h
  ]

module _ {N : Type 0} (cf : Config N) where
  -- An entry is replaced by one with the same stakes.
  pub store-IsBalanced :
      (id : ℕ) (d : Dominator) (s s' : State N)
      → s'.dominators ≡ store id d s.dominators
      → s'.stakings ≡ s.stakings
      → staked_by (find id s.dominators) ≡ d.staked
      → is_graded cf (some d) ≡ true
      → IsBalanced cf s
      → IsBalanced cf s'
  store-IsBalanced id d s s' dominators stakings same graded (keyed, each) = (
    rw stakings keyed,
    λ i.
        rw (dominators, stakings)
          (ground (arith, each i, each id, same, graded, find-store i id d s.dominators)),
  )

  pub same-IsBalanced :
      (s s' : State N)
      → s'.dominators ≡ s.dominators
      → s'.stakings ≡ s.stakings
      → IsBalanced cf s
      → IsBalanced cf s'
  same-IsBalanced s s' dominators stakings (keyed, each) =
      (rw stakings keyed, λ i. rw (dominators, stakings) (each i))

module _ {N : Type 0} (cf : Config N) (checks : cf.runtime.overflow_checks ≡ true) where
  pub stake-IsBalanced :
      (origin : Origin) (target amount : ℕ) (s : State N)
      → IsBalanced cf s
      → IsBalanced cf (stake cf origin target amount s).1
  unfolding stake
  stake-IsBalanced root target amount s h = h
  stake-IsBalanced unsigned target amount s h = h
  stake-IsBalanced (signed who) target amount s h = elim (Option-cases (cf.lookup_account target)) [
    | inl e ↦ rw e h
    | inr (id, e) ↦ rw e (
        keep_ok-holds (IsBalanced cf) s (stake_on cf who id amount s) h
          (stake_on-IsBalanced cf checks who id amount s h))
  ]

  pub unstake-IsBalanced :
      (origin : Origin) (target amount : ℕ) (s : State N)
      → IsBalanced cf s
      → IsBalanced cf (unstake cf origin target amount s).1
  unfolding unstake
  unstake-IsBalanced root target amount s h = h
  unstake-IsBalanced unsigned target amount s h = h
  unstake-IsBalanced (signed who) target amount s h =
      elim (Option-cases (cf.lookup_account target)) [
        | inl e ↦ rw e h
        | inr (id, e) ↦ rw e (
            keep_ok-holds (IsBalanced cf) s (unstake_from cf who id amount s) h
              (unstake_from-IsBalanced cf checks who id amount s h))
      ]
