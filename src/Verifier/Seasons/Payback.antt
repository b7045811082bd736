-- ===== src/Verifier/Seasons/Payback.antt =====
-- A block that the pallet settles gives back what waits for it, on its books and in the ledger.
use fusotao_protocol.Base.{
  ℕ, ◌+◌, ◌≤◌, ◌<◌, ◌%◌, ◌≡◌, ◌≢◌, refl, ap, Option, none, some, List, [], ◌∷◌, ◌==◌, Bool-cases,
  Option-cases, inl, inr, arith,
}
use fusotao_protocol.Base.Result.{ok}
use fusotao_protocol.Base.Runs.{>>=-ok}
use fusotao_protocol.Base.Dict.{Dict, IsDict, lookup}
use fusotao_protocol.Base.Assoc.{find}
use fusotao_protocol.Verifier.State.{State, Config, Dominator, reserve_for_pending_unstake}
use fusotao_protocol.Verifier.Reserving.{unreserve}
use fusotao_protocol.Verifier.Seasons.{
  prefix, close_season, close_seasons, unlock_pending, unlock_all_pending, on_initialize,
}

-- No staker is listed twice.
abbrev IsOnce : List (ℕ × ℕ) → Type 0
IsOnce [] = Unit {0}
IsOnce ((staker, amount) ∷ stakes) = (find staker stakes ≡ none) × IsOnce stakes

find-prefix : (now k : ℕ) (d : Dict ℕ) → IsDict d → find k (prefix now d) ≡ lookup (now, k) d
unfolding find prefix lookup
find-prefix now k [] h = refl
find-prefix now k ((key, v) ∷ d) h = ground (arith, find-prefix now k d h.1)

prefix-IsOnce : (now : ℕ) (d : Dict ℕ) → IsDict d → IsOnce (prefix now d)
unfolding prefix
prefix-IsOnce now [] h = tt
prefix-IsOnce now ((key, v) ∷ d) h =
    ground (arith, prefix-IsOnce now d h.1, find-prefix now key.1 d h.1, h.0)

-- What is listed for a staker.
abbrev pub or_zero : Option ℕ → ℕ
or_zero none = 0
or_zero (some v) = v

module _ {N : Type 0} (cf : Config N) where
  -- What the books hold for the stakes of an account that wait.
  abbrev pub owed : ℕ → State N → ℕ
  owed k s = s.reserves reserve_for_pending_unstake k cf.asset.native_token_id cf.system_account

  close_seasons-owed :
      (now k : ℕ) (ds : List (ℕ × Dominator)) (s : State N)
      → let s' = (close_seasons cf now ds s).1 in
        (owed k s' ≡ owed k s)
        × (s'.native ≡ s.native)
        × (s'.pending_unstakings ≡ s.pending_unstakings)
  unfolding close_seasons close_season
  close_seasons-owed now k [] s = (refl, refl, refl)
  close_seasons-owed now k (d ∷ ds) s = grind (arith, close_seasons-owed now k ds)

-- What an account has reserved in the ledger of the native token, which gives back what is there.
module _ {N : Type 0} (cf : Config N) (held : ℕ → N → ℕ)
    (gives_back : (who value : ℕ) (n : N)
      → value ≤ held who n
      → let (r, n') = cf.asset.unreserve cf.asset.native_token_id who value n in
        (r ≡ ok tt) × (held who n' + value ≡ held who n))
    (others_stay : (who other value : ℕ) (n : N)
      → other ≢ who
      → held other (cf.asset.unreserve cf.asset.native_token_id who value n).1 ≡ held other n)
    (now k : ℕ) where
  unlock_pending-other :
      (staker amount : ℕ) (s : State N)
      → k ≢ staker
      → let s' = (unlock_pending cf now staker amount s).1 in
        (owed cf k s' ≡ owed cf k s) × (held k s'.native ≡ held k s.native)
  unfolding unlock_pending unreserve
  unlock_pending-other staker amount s apart =
      let stays = others_stay staker k amount s.native apart in ground (arith, apart, stays)

  unlock_pending-own :
      (amount : ℕ) (s : State N)
      → amount ≤ owed cf k s
      → amount ≤ held k s.native
      → let s' = (unlock_pending cf now k amount s).1 in
        (owed cf k s' + amount ≡ owed cf k s) × (held k s'.native + amount ≡ held k s.native)
  unfolding unlock_pending unreserve
  unlock_pending-own amount s booked there =
      let back = gives_back k amount s.native there in ground (arith, booked, back)

  unlock_all-other :
      (stakes : List (ℕ × ℕ)) (s s' : State N)
      → unlock_all_pending cf now stakes s ≡ (ok tt, s')
      → find k stakes ≡ none
      → (owed cf k s' ≡ owed cf k s) × (held k s'.native ≡ held k s.native)
  unfolding unlock_all_pending find
  unlock_all-other [] s s' h missing = ground arith
  unlock_all-other ((staker, amount) ∷ stakes) s s' h missing =
      let (u, t, e, rest) =
        >>=-ok (unlock_pending cf now staker amount) (λ _. unlock_all_pending cf now stakes) s h in
      let here = unlock_pending-other staker amount s (ground (arith, missing)) in
      let later = unlock_all-other stakes t s' rest (ground (arith, missing)) in
      ground (arith, e, here, later)

  unlock_all-own :
      (stakes : List (ℕ × ℕ)) (amount : ℕ) (s s' : State N)
      → unlock_all_pending cf now stakes s ≡ (ok tt, s')
      → IsOnce stakes
      → find k stakes ≡ some amount
      → amount ≤ owed cf k s
      → amount ≤ held k s.native
      → (owed cf k s' + amount ≡ owed cf k s) × (held k s'.native + amount ≡ held k s.native)
  unfolding unlock_all_pending find
  unlock_all-own [] amount s s' h once listed booked there = cc
  unlock_all-own ((staker, value) ∷ stakes) amount s s' h once listed booked there =
      let (u, t, e, rest) =
        >>=-ok (unlock_pending cf now staker value) (λ _. unlock_all_pending cf now stakes) s h in
      elim (Bool-cases (k == staker)) [
        | inr apart ↦
            let here = unlock_pending-other staker value s (ground (arith, apart)) in
            let later =
              unlock_all-own stakes amount t s' rest once.1 (ground (arith, listed, apart))
                (ground (arith, e, here, booked)) (ground (arith, e, here, there)) in
            ground (arith, e, here, later)
        | inl same ↦
            let is_k : staker ≡ k = ground (arith, same) in
            let is_amount : value ≡ amount = ground (arith, listed, same) in
            let e1 = rw (is_k, is_amount) at e in
            let own = unlock_pending-own amount s booked there in
            let later = unlock_all-other stakes t s' rest (rw is_k at once.0) in
            ground (arith, e1, own, later)
      ]

  unlock_all-pays :
      (stakes : List (ℕ × ℕ)) (s s' : State N)
      → unlock_all_pending cf now stakes s ≡ (ok tt, s')
      → IsOnce stakes
      → or_zero (find k stakes) ≤ owed cf k s
      → or_zero (find k stakes) ≤ held k s.native
      → (owed cf k s' + or_zero (find k stakes) ≡ owed cf k s)
        × (held k s'.native + or_zero (find k stakes) ≡ held k s.native)
  unlock_all-pays stakes s s' h once booked there = elim (Option-cases (find k stakes)) [
    | inl e ↦
        let stays = unlock_all-other stakes s s' h e in
        rw e (omega (arith, stays.0), omega (arith, stays.1))
    | inr (v, e) ↦ rw e (unlock_all-own stakes v s s' h once e (rw e at booked) (rw e at there))
  ]

  -- What waits for the block is taken from the books and given back by the ledger.
  pub on_initialize-pays :
      (s s' : State N)
      → 0 < cf.dominator_check_grace_period
      → now % cf.dominator_check_grace_period ≡ 0
      → IsDict s.pending_unstakings
      → let amount = or_zero (lookup (now, k) s.pending_unstakings) in
        amount ≤ owed cf k s
        → amount ≤ held k s.native
        → on_initialize cf now s ≡ (ok tt, s')
        → (owed cf k s' + amount ≡ owed cf k s) × (held k s'.native + amount ≡ held k s.native)
  unfolding on_initialize
  on_initialize-pays s s' pos due dict booked there h =
      let t : State N = (close_seasons cf now s.dominators s).1 in
      let (same, native, pending) = close_seasons-owed cf now k s.dominators s in
      let stakes = prefix now s.pending_unstakings in
      let listed : or_zero (find k stakes) ≡ or_zero (lookup (now, k) s.pending_unstakings) =
        ap or_zero (find-prefix now k s.pending_unstakings dict) in
      let kept : held k t.native ≡ held k s.native = ap (held k) native in
      let own =
        unlock_all-pays stakes t s' (ground (arith, pos, due, h, pending))
          (prefix-IsOnce now s.pending_unstakings dict) (omega (arith, same, listed, booked))
          (omega (arith, kept, listed, there)) in
      (omega (arith, own.0, same, listed), omega (arith, own.1, kept, listed))
