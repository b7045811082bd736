-- ===== src/Verifier/Seasons/Drain.antt =====
-- A block that the pallet settles empties the stakes that wait for it.
use fusotao_protocol.Base.{
  ℕ, ◌<◌, ◌%◌, ◌≡◌, refl, Bool, true, false, none, List, [], ◌∷◌, ◌==◌, ◌||◌, ◌⊎◌, inl, arith,
}
use fusotao_protocol.Base.Result.{ok}
use fusotao_protocol.Base.Runs.{>>=-ok}
use fusotao_protocol.Base.Dict.{Dict, lookup, erase, lookup-erase}
use fusotao_protocol.Verifier.State.{State, Config, Dominator}
use fusotao_protocol.Verifier.Reserving.Laws.{unreserve-Keeps}
use fusotao_protocol.Verifier.Seasons.{
  prefix, close_season, close_seasons, unlock_pending, unlock_all_pending, on_initialize,
}

has_staker : ℕ → List (ℕ × ℕ) → Bool
has_staker k [] = false
has_staker k ((staker, amount) ∷ stakes) = k == staker || has_staker k stakes

prefix-has_staker :
    (now k : ℕ) (d : Dict ℕ) → (lookup (now, k) d ≡ none) ⊎ (has_staker k (prefix now d) ≡ true)
unfolding lookup prefix has_staker
prefix-has_staker now k [] = inl refl
prefix-has_staker now k (e ∷ d) = ground (arith, prefix-has_staker now k d)

module _ {N : Type 0} (cf : Config N) where
  close_seasons-pending :
      (now : ℕ) (ds : List (ℕ × Dominator)) (s : State N)
      → (close_seasons cf now ds s).1.pending_unstakings ≡ s.pending_unstakings
  unfolding close_seasons close_season
  close_seasons-pending now [] s = refl
  close_seasons-pending now (d ∷ ds) s = grind (arith, close_seasons-pending now ds)

  unlock_pending-pending :
      (now staker amount : ℕ) (s : State N)
      → (unlock_pending cf now staker amount s).1.pending_unstakings
        ≡ erase (now, staker) s.pending_unstakings
  unfolding unlock_pending
  unlock_pending-pending now staker amount s = grind (arith, unreserve-Keeps cf)

  unlock_all_pending-drains :
      (now k : ℕ) (stakes : List (ℕ × ℕ)) (s s' : State N)
      → unlock_all_pending cf now stakes s ≡ (ok tt, s')
      → (lookup (now, k) s.pending_unstakings ≡ none) ⊎ (has_staker k stakes ≡ true)
      → lookup (now, k) s'.pending_unstakings ≡ none
  unfolding unlock_all_pending has_staker
  unlock_all_pending-drains now k [] s s' h gone = ground arith
  unlock_all_pending-drains now k ((staker, amount) ∷ stakes) s s' h gone =
      let (u, t, e, rest) =
        >>=-ok (unlock_pending cf now staker amount) (λ _. unlock_all_pending cf now stakes) s h in
      unlock_all_pending-drains now k stakes t s' rest (
        ground (
          arith,
          e,
          unlock_pending-pending now staker amount s,
          lookup-erase (now, k) (now, staker) s.pending_unstakings,
        ))

  pub on_initialize-drains :
      (now k : ℕ) (s s' : State N)
      → 0 < cf.dominator_check_grace_period
      → now % cf.dominator_check_grace_period ≡ 0
      → on_initialize cf now s ≡ (ok tt, s')
      → lookup (now, k) s'.pending_unstakings ≡ none
  unfolding on_initialize
  on_initialize-drains now k s s' pos due h =
      let t : State N = (close_seasons cf now s.dominators s).1 in
      let stakes = prefix now t.pending_unstakings in
      unlock_all_pending-drains now k stakes t s' (ground (arith, pos, due, h))
        (prefix-has_staker now k t.pending_unstakings)
