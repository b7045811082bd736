-- ===== src/Verifier/Reserving/Laws.antt =====
-- What the operations on reserves leave as it is.
use fusotao_protocol.Base.{ℕ, ◌+◌, ◌≡◌, false, ◌==◌, arith}
use fusotao_protocol.Base.Result.{ok}
use fusotao_protocol.Verifier.State.{State, Config}
use fusotao_protocol.Verifier.Reserving.{reserve, unreserve, clear}

-- The books of the pallet besides the reserves.
abbrev pub Keeps : {N : Type 0} → State N → State N → Type 0
Keeps s s' =
    (s'.dominators ≡ s.dominators)
    × ((s'.stakings ≡ s.stakings)
        × ((s'.receipts ≡ s.receipts)
            × ((s'.pending_unstakings ≡ s.pending_unstakings) × (s'.now ≡ s.now))))

-- The dominators and the stakes stay.
abbrev pub KeepsStakes : {N : Type 0} → State N → State N → Type 0
KeepsStakes s s' = (s'.dominators ≡ s.dominators) × (s'.stakings ≡ s.stakings)

module _ {N : Type 0} (cf : Config N) where
  pub reserve-Keeps :
      (id owner token value to : ℕ) (s : State N) → Keeps s (reserve cf id owner token value to s).1
  unfolding reserve
  reserve-Keeps id owner token value to s = ground arith

  pub unreserve-Keeps :
      (id owner token value from : ℕ) (s : State N)
      → Keeps s (unreserve cf id owner token value from s).1
  unfolding unreserve
  unreserve-Keeps id owner token value from s = ground arith

  pub clear-Keeps :
      (who dominator token balance : ℕ) (s : State N)
      → Keeps s (clear cf who dominator token balance s).1
  unfolding clear
  clear-Keeps who dominator token balance s = ground arith

  -- The entry grows by the value, and the entries under other reserve ids stay.
  pub reserve-adds :
      (id owner token value to : ℕ) (s s' : State N)
      → reserve cf id owner token value to s ≡ (ok tt, s')
      → (s'.reserves id owner token to ≡ s.reserves id owner token to + value)
        × ((i : ℕ) → (i == id) ≡ false → s'.reserves i owner token to ≡ s.reserves i owner token to)
  unfolding reserve
  reserve-adds id owner token value to s s' h = (ground arith, λ i apart. ground (arith, h))

  -- The entry falls by the value, which it holds.
  pub unreserve-subtracts :
      (id owner token value from : ℕ) (s s' : State N)
      → unreserve cf id owner token value from s ≡ (ok tt, s')
      → (s'.reserves id owner token from + value ≡ s.reserves id owner token from)
        × ((i : ℕ)
            → (i == id) ≡ false
            → s'.reserves i owner token from ≡ s.reserves i owner token from)
  unfolding unreserve
  unreserve-subtracts id owner token value from s s' h =
      (ground arith, λ i apart. ground (arith, h))
