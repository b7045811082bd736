-- ===== src/Verifier/Stakes/Books.antt =====
-- The stakes of a dominator and its entry: what each call makes of them.
use fusotao_protocol.Base.{
  ℕ, ◌+◌, ◌-◌, ◌≤◌, ◌≡◌, true, false, Option, some, ◌==◌, ◌||◌, inl, inr, if◌then◌else◌,
  Option-cases, arith,
}
use fusotao_protocol.Base.Result.{ok}
use fusotao_protocol.Base.Dict.{lookup, put}
use fusotao_protocol.Base.Assoc.{find, store}
use fusotao_protocol.Verifier.State.{
  State, Config, Dominator, Staking, dominator_registered, dominator_inactive, dominator_active,
  dominator_evicted,
}
use fusotao_protocol.Verifier.Reserving.Laws.{Keeps, reserve-Keeps, unreserve-Keeps}
use fusotao_protocol.Verifier.Seasons.{staking_or_default}
use fusotao_protocol.Verifier.Seasons.Laws.{take_shares-Keeps}
use fusotao_protocol.Verifier.Stakes.{
  raise_staking, lower_staking, queue_unstaking, stake_on, unstake_from, move_stake,
  status_by_stakes, record_stake, record_unstake,
}

-- The stake that an entry holds.
abbrev pub staked_in : Option Staking → ℕ
staked_in entry = (staking_or_default entry).amount

-- The status of a dominator once its stakes have changed.
abbrev pub next_status : {N : Type 0} → Config N → ℕ → ℕ → ℕ
next_status cf status staked =
    if status == dominator_evicted then dominator_evicted else status_by_stakes cf staked

-- One stake on a dominator has changed, and its entry with it.
abbrev pub Restakes : {N : Type 0} → Config N → ℕ → ℕ → State N → State N → Type 0
Restakes cf id staker s s' =
    (d : Dominator) × (staked : ℕ) × (entry : Option Staking) × (find id s.dominators ≡ some d)
    × ((d.status == dominator_registered) ≡ false)
    × (s'.dominators
        ≡ store id (record d { staked = staked; status = next_status cf d.status staked })
            s.dominators)
    × (s'.stakings ≡ put (id, staker) entry s.stakings)
    × (staked + staked_in (lookup (id, staker) s.stakings) ≡ d.staked + staked_in entry)

module _ {N : Type 0} (cf : Config N) (checks : cf.runtime.overflow_checks ≡ true) where
  raise_staking-effect :
      (staker id amount start : ℕ) (s s' : State N)
      → raise_staking cf staker id amount start s ≡ (ok tt, s')
      → (st : Staking) × (s'.stakings ≡ put (id, staker) (some st) s.stakings)
        × (st.amount ≡ (staking_or_default (lookup (id, staker) s.stakings)).amount + amount)
        × (s'.dominators ≡ s.dominators)
  unfolding raise_staking
  raise_staking-effect staker id amount start s s' h =
      grind (arith, checks, reserve-Keeps cf, take_shares-Keeps cf)

  queue_unstaking-books :
      (staker amount : ℕ) (s : State N)
      → ((queue_unstaking cf staker amount s).1.stakings ≡ s.stakings)
        × ((queue_unstaking cf staker amount s).1.dominators ≡ s.dominators)
  unfolding queue_unstaking
  queue_unstaking-books staker amount s = ground arith

  pub move_stake-Keeps :
      (staker id amount : ℕ) (s : State N) → Keeps s (move_stake cf staker id amount s).1
  unfolding move_stake
  move_stake-Keeps staker id amount s = grind (arith, unreserve-Keeps cf, reserve-Keeps cf)

  lower_staking-effect :
      (staker id amount start : ℕ) (s s' : State N)
      → lower_staking cf staker id amount start s ≡ (ok tt, s')
      → (old : Staking) × (left : Option Staking) × (lookup (id, staker) s.stakings ≡ some old)
        × (s'.stakings ≡ put (id, staker) left s.stakings)
        × ((staking_or_default left).amount + amount ≡ old.amount)
        × (s'.dominators ≡ s.dominators)
  unfolding lower_staking
  lower_staking-effect staker id amount start s s' h =
      grind (arith, move_stake-Keeps, take_shares-Keeps cf, queue_unstaking-books)

  record_stake-effect :
      (staker id amount : ℕ) (d : Dominator) (s s' : State N)
      → record_stake cf staker id amount d s ≡ (ok tt, s')
      → (s'.dominators
          ≡ store id
              (record d {
                staked = d.staked + amount;
                status = status_by_stakes cf (d.staked + amount);
              })
              s.dominators)
        × (s'.stakings ≡ s.stakings)
  unfolding record_stake
  record_stake-effect staker id amount d s s' h = ground (arith, checks)

  -- What a stake finds before it changes the entry of the staker.
  stake_on-found :
      (staker id amount : ℕ) (s s' : State N)
      → stake_on cf staker id amount s ≡ (ok tt, s')
      → (d : Dominator) × (s1 : State N) × (find id s.dominators ≡ some d)
        × (((d.status == dominator_active) || (d.status == dominator_inactive)) ≡ true)
        × (raise_staking cf staker id amount d.start_from s ≡ (ok tt, s1))
        × (record_stake cf staker id amount d s1 ≡ (ok tt, s'))
  unfolding stake_on
  stake_on-found staker id amount s s' h = elim (Option-cases (find id s.dominators)) [
    | inl e ↦ absurd (let h' = h in ground (arith, e))
    | inr (d, e) ↦ (
      d,
      (raise_staking cf staker id amount d.start_from s).1,
      e,
      ground (arith, e),
      ground (arith, e),
      ground (arith, e),
    )
  ]

  pub stake_on-effect :
      (staker id amount : ℕ) (s s' : State N)
      → stake_on cf staker id amount s ≡ (ok tt, s')
      → Restakes cf id staker s s'
  stake_on-effect staker id amount s s' h =
      let (d, s1, e, live, e1, e2) = stake_on-found staker id amount s s' h in
      let (st, stakings, sums, same) = raise_staking-effect staker id amount d.start_from s s1 e1 in
      let (dominators, same') = record_stake-effect staker id amount d s1 s' e2 in
      (d, d.staked + amount, some st, e, ground arith, ground arith, ground arith, ground arith)

  record_unstake-effect :
      (staker id amount staked : ℕ) (d : Dominator) (s s' : State N)
      → record_unstake cf staker id amount staked d s ≡ (ok tt, s')
      → (s'.dominators
          ≡ store id
              (record d { staked = staked; status = next_status cf d.status staked })
              s.dominators)
        × (s'.stakings ≡ s.stakings)
  unfolding record_unstake
  record_unstake-effect staker id amount staked d s s' h = ground arith

  -- What an unstake finds before it changes the entry of the staker.
  pub unstake_from-found :
      (staker id amount : ℕ) (s s' : State N)
      → unstake_from cf staker id amount s ≡ (ok tt, s')
      → (d : Dominator) × (s1 : State N) × (find id s.dominators ≡ some d)
        × ((d.status == dominator_registered) ≡ false)
        × (amount ≤ d.staked)
        × (lower_staking cf staker id amount d.start_from s ≡ (ok tt, s1))
        × (record_unstake cf staker id amount (d.staked - amount) d s1 ≡ (ok tt, s'))
  unfolding unstake_from
  unstake_from-found staker id amount s s' h = elim (Option-cases (find id s.dominators)) [
    | inl e ↦ absurd (let h' = h in ground (arith, e))
    | inr (d, e) ↦ (
      d,
      (lower_staking cf staker id amount d.start_from s).1,
      e,
      ground (arith, e),
      ground (arith, e),
      ground (arith, e),
      ground (arith, e),
    )
  ]

  pub unstake_from-effect :
      (staker id amount : ℕ) (s s' : State N)
      → unstake_from cf staker id amount s ≡ (ok tt, s')
      → Restakes cf id staker s s'
  unstake_from-effect staker id amount s s' h =
      let (d, s1, e, live, enough, e1, e2) = unstake_from-found staker id amount s s' h in
      let (old, left, was, stakings, sums, same) =
        lower_staking-effect staker id amount d.start_from s s1 e1 in
      let (dominators, same') =
        record_unstake-effect staker id amount (d.staked - amount) d s1 s' e2 in
      (d, d.staked - amount, left, e, live, ground arith, ground arith, ground (arith, was))
