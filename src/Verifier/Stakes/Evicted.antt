-- ===== src/Verifier/Stakes/Evicted.antt =====
-- A dominator that was evicted stays so when stakes change.
use fusotao_protocol.Base.{
  ℕ, ◌≡◌, Bool, true, false, Option, none, some, ◌==◌, Option-cases, ◌⊎◌, inl, inr, arith,
}
use fusotao_protocol.Base.Runs.{keep_ok-holds}
use fusotao_protocol.Base.Assoc.{find, store, find-store}
use fusotao_protocol.Token.Types.{Origin, root, unsigned, signed}
use fusotao_protocol.Verifier.State.{State, Config, Dominator, Staking, dominator_evicted}
use fusotao_protocol.Verifier.Seasons.Laws.{take_shares-Keeps}
use fusotao_protocol.Verifier.Stakes.{
  stake_on, unstake_from, stake, unstake, claim_stake, claim_shares,
}
use fusotao_protocol.Verifier.Stakes.Books.{
  Restakes, stake_on-effect, unstake_from-effect, next_status,
}
use fusotao_protocol.Verifier.Stakes.Balance.{stake_on-cases, unstake_from-cases}

abbrev pub is_evicted : Option Dominator → Bool
is_evicted none = false
is_evicted (some d) = d.status == dominator_evicted

abbrev pub IsEvicted : {N : Type 0} → ℕ → State N → Type 0
IsEvicted id s = is_evicted (find id s.dominators) ≡ true

pub same-IsEvicted :
    {N : Type 0} (id : ℕ) (s s' : State N)
    → s'.dominators ≡ s.dominators
    → IsEvicted id s
    → IsEvicted id s'
same-IsEvicted id s s' same h = rw same h

-- An entry is stored that is evicted if the old one was.
pub store-IsEvicted :
    {N : Type 0} (id k : ℕ) (old new : Dominator) (s s' : State N)
    → find k s.dominators ≡ some old
    → s'.dominators ≡ store k new s.dominators
    → ((old.status == dominator_evicted) ≡ false) ⊎ ((new.status == dominator_evicted) ≡ true)
    → IsEvicted id s
    → IsEvicted id s'
store-IsEvicted id k old new s s' e stored keeps h =
    rw stored (ground (arith, e, keeps, h, find-store id k new s.dominators))

module _ {N : Type 0} (cf : Config N) (checks : cf.runtime.overflow_checks ≡ true) (id : ℕ) where
  Restakes-IsEvicted :
      (k staker : ℕ) (s s' : State N) → Restakes cf k staker s s' → IsEvicted id s → IsEvicted id s'
  Restakes-IsEvicted k staker s s' (d, staked, entry, e, live, dominators, stakings, sums) h =
      store-IsEvicted id k d (record d { staked = staked; status = next_status cf d.status staked })
        s s' e dominators (ground arith) h

  stake_on-IsEvicted :
      (staker k amount : ℕ) (s : State N)
      → IsEvicted id s
      → IsEvicted id (stake_on cf staker k amount s).1
  stake_on-IsEvicted staker k amount s h = elim (stake_on-cases cf checks staker k amount s) [
    | inl (v, s', t) ↦
        rw t (Restakes-IsEvicted k staker s s' (stake_on-effect cf checks staker k amount s s' t) h)
    | inr same ↦ rw same h
  ]

  unstake_from-IsEvicted :
      (staker k amount : ℕ) (s : State N)
      → IsEvicted id s
      → IsEvicted id (unstake_from cf staker k amount s).1
  unstake_from-IsEvicted staker k amount s h =
      elim (unstake_from-cases cf checks staker k amount s) [
        | inl (v, s', t) ↦ rw t (
            Restakes-IsEvicted k staker s s' (unstake_from-effect cf checks staker k amount s s' t)
              h)
        | inr same ↦ rw same h
      ]

  pub stake-IsEvicted :
      (origin : Origin) (target amount : ℕ) (s : State N)
      → IsEvicted id s
      → IsEvicted id (stake cf origin target amount s).1
  unfolding stake
  stake-IsEvicted root target amount s h = h
  stake-IsEvicted unsigned target amount s h = h
  stake-IsEvicted (signed who) target amount s h = elim (Option-cases (cf.lookup_account target)) [
    | inl e ↦ rw e h
    | inr (k, e) ↦ rw e (
        keep_ok-holds (IsEvicted id) s (stake_on cf who k amount s) h
          (stake_on-IsEvicted who k amount s h))
  ]

  pub unstake-IsEvicted :
      (origin : Origin) (target amount : ℕ) (s : State N)
      → IsEvicted id s
      → IsEvicted id (unstake cf origin target amount s).1
  unfolding unstake
  unstake-IsEvicted root target amount s h = h
  unstake-IsEvicted unsigned target amount s h = h
  unstake-IsEvicted (signed who) target amount s h =
      elim (Option-cases (cf.lookup_account target)) [
        | inl e ↦ rw e h
        | inr (k, e) ↦ rw e (
            keep_ok-holds (IsEvicted id) s (unstake_from cf who k amount s) h
              (unstake_from-IsEvicted who k amount s h))
      ]

module _ {N : Type 0} (cf : Config N) where
  claim_stake-KeepsDominators :
      (signer dex start : ℕ) (old : Staking) (s : State N)
      → (claim_stake cf signer dex start old s).1.dominators ≡ s.dominators
  unfolding claim_stake
  claim_stake-KeepsDominators signer dex start old s = grind (arith, take_shares-Keeps cf)

  pub claim_shares-KeepsDominators :
      (origin : Origin) (target : ℕ) (s : State N)
      → (claim_shares cf origin target s).1.dominators ≡ s.dominators
  unfolding claim_shares
  claim_shares-KeepsDominators origin target s = grind (arith, claim_stake-KeepsDominators)
