-- ===== src/Verifier/Stakes/Release.antt =====
-- A stake that is withdrawn is released at a block that the pallet settles.
use native.Mathlib.Nat.{mod-lt, mod-add-div, mul-add-mod_self_left, le_of_dvd, dvd_of_mod-eq-zero}
use fusotao_protocol.Base.{ℕ, ◌≢◌, ◌+◌, ◌-◌, ◌*◌, ◌/◌, ◌%◌, ◌≤◌, ◌<◌, ◌≡◌, refl, ◌∙◌, true, arith}
use fusotao_protocol.Base.Result.{ok}
use fusotao_protocol.Base.Dict.{Dict, IsDict, lookup, lookup-insert}
use fusotao_protocol.Verifier.State.{State, Config, Dominator}
use fusotao_protocol.Verifier.Seasons.Laws.{take_shares-Keeps}
use fusotao_protocol.Verifier.Seasons.{on_initialize}
use fusotao_protocol.Verifier.Seasons.Payback.{or_zero, owed, on_initialize-pays}
use fusotao_protocol.Verifier.Seasons.Drain.{on_initialize-drains}
use fusotao_protocol.Verifier.Stakes.{
  unstake_delay_blocks, move_stake, lower_staking, queue_unstaking, record_unstake, unstake_from,
}
use fusotao_protocol.Verifier.Stakes.Books.{unstake_from-found, move_stake-Keeps}

module _ {N : Type 0} (cf : Config N) where
  -- The block at which a stake is released that is withdrawn now.
  abbrev pub unlock_block : ℕ → ℕ
  unlock_block now = now - now % cf.dominator_check_grace_period + unstake_delay_blocks

-- What waits under a key.
abbrev pub waiting : ℕ → ℕ → Dict ℕ → ℕ
waiting at staker pending = or_zero (lookup (at, staker) pending)

-- What waits for the block that releases a stake withdrawn at `now`.
abbrev pub due_at : {N : Type 0} → Config N → ℕ → ℕ → State N → ℕ
due_at cf now staker s = waiting (unlock_block cf now) staker s.pending_unstakings

module _ {N : Type 0} (cf : Config N) (checks : cf.runtime.overflow_checks ≡ true) where
  queue_unstaking-waiting :
      (staker amount : ℕ) (s s' : State N)
      → queue_unstaking cf staker amount s ≡ (ok tt, s')
      → (waiting (unlock_block cf s.now) staker s'.pending_unstakings
          ≡ waiting (unlock_block cf s.now) staker s.pending_unstakings + amount)
        × (0 < cf.dominator_check_grace_period)
  unfolding queue_unstaking
  queue_unstaking-waiting staker amount s s' h = ground (
    arith,
    checks,
    lookup-insert (unlock_block cf s.now, staker) (unlock_block cf s.now, staker)
        (waiting (unlock_block cf s.now) staker s.pending_unstakings + amount) s.pending_unstakings,
  )

  -- What waits after a stake is lowered waits after it was queued.
  lower_staking-queued :
      (staker id amount start : ℕ) (s s' : State N)
      → lower_staking cf staker id amount start s ≡ (ok tt, s')
      → (let s1 = (move_stake cf staker id amount s).1 in
          let s2 = (queue_unstaking cf staker amount s1).1 in
          (queue_unstaking cf staker amount s1 ≡ (ok tt, s2))
          × (s'.pending_unstakings ≡ s2.pending_unstakings))
  unfolding lower_staking
  lower_staking-queued staker id amount start s s' h = grind (arith, take_shares-Keeps cf)

  record_unstake-pending :
      (staker id amount staked : ℕ) (d : Dominator) (s s' : State N)
      → record_unstake cf staker id amount staked d s ≡ (ok tt, s')
      → s'.pending_unstakings ≡ s.pending_unstakings
  unfolding record_unstake
  record_unstake-pending staker id amount staked d s s' h = ground arith

  pub unstake_from-waiting :
      (staker id amount : ℕ) (s s' : State N)
      → unstake_from cf staker id amount s ≡ (ok tt, s')
      → (waiting (unlock_block cf s.now) staker s'.pending_unstakings
          ≡ waiting (unlock_block cf s.now) staker s.pending_unstakings + amount)
        × (0 < cf.dominator_check_grace_period)
  unstake_from-waiting staker id amount s s' h =
      let (d, t, e, live, enough, e1, e2) = unstake_from-found cf checks staker id amount s s' h in
      let (queued, pending) = lower_staking-queued staker id amount d.start_from s t e1 in
      let s1 : State N = (move_stake cf staker id amount s).1 in
      let (dominators, (stakings, (receipts, (kept, same)))) =
        move_stake-Keeps cf checks staker id amount s in
      rw (record_unstake-pending staker id amount (d.staked - amount) d t s' e2, pending)
        (rw (same, kept) at
          (queue_unstaking-waiting staker amount s1 (queue_unstaking cf staker amount s1).1 queued))

module _ {N : Type 0} (cf : Config N) (checks : cf.runtime.overflow_checks ≡ true) where
  unlock_block-settles :
      (now : ℕ)
      → 0 < cf.dominator_check_grace_period
      → unstake_delay_blocks % cf.dominator_check_grace_period ≡ 0
      → (unlock_block cf now % cf.dominator_check_grace_period ≡ 0) × (now < unlock_block cf now)
  unlock_block-settles now pos whole =
      let g = cf.dominator_check_grace_period in
      let start : now - now % g ≡ g * (now / g) = omega (arith, mod-add-div now g) in
      let delay : g ≤ unstake_delay_blocks = le_of_dvd (omega arith) (dvd_of_mod-eq-zero g whole) in
      (
        rw start (mul-add-mod_self_left g (now / g) unstake_delay_blocks ∙ whole),
        omega (arith, delay, mod-lt now pos),
      )

  -- In a build with overflow checks, where the delay is a multiple of the grace period, over a
  -- ledger that gives back what an account has reserved of the native token and leaves the other
  -- accounts as they are, a stake that is withdrawn waits for a later block, added to what waits
  -- for it. Where that block begins without a panic or an error, on a storage where at least as
  -- much waits for it, no entry is stored twice, and the books and the ledger cover what waits,
  -- all that waits for the staker, which the withdrawn amount is a part of, leaves both the books
  -- of the pending stakes and the reserve of the staker in the ledger, and nothing of the staker
  -- waits for this block any more.
  pub unstake_from-released :
      (held : ℕ → N → ℕ)
      → ((who value : ℕ) (n : N)
          → value ≤ held who n
          → let (r, n') = cf.asset.unreserve cf.asset.native_token_id who value n in
            (r ≡ ok tt) × (held who n' + value ≡ held who n))
      → ((who other value : ℕ) (n : N)
          → other ≢ who
          → held other (cf.asset.unreserve cf.asset.native_token_id who value n).1 ≡ held other n)
      → (staker id amount : ℕ) (s s' t t' : State N)
      → unstake_delay_blocks % cf.dominator_check_grace_period ≡ 0
      → unstake_from cf staker id amount s ≡ (ok tt, s')
      → due_at cf s.now staker s' ≤ due_at cf s.now staker t
      → IsDict t.pending_unstakings
      → due_at cf s.now staker t ≤ owed cf staker t
      → due_at cf s.now staker t ≤ held staker t.native
      → on_initialize cf (unlock_block cf s.now) t ≡ (ok tt, t')
      → (s.now < unlock_block cf s.now)
        × (due_at cf s.now staker s' ≡ due_at cf s.now staker s + amount)
        × (amount ≤ due_at cf s.now staker t)
        × (owed cf staker t' + due_at cf s.now staker t ≡ owed cf staker t)
        × (held staker t'.native + due_at cf s.now staker t ≡ held staker t.native)
        × (due_at cf s.now staker t' ≡ 0)
  unstake_from-released held gives_back others_stay staker id amount s s' t t' whole h waits dict
        booked there h' =
      let (queued, pos) = unstake_from-waiting cf checks staker id amount s s' h in
      let at = unlock_block cf s.now in
      let (due, later) = unlock_block-settles s.now pos whole in
      let (books, ledger) =
        on_initialize-pays cf held gives_back others_stay at staker t t' pos due dict booked there
          h' in
      (
        later,
        queued,
        omega (arith, queued, waits),
        books,
        ledger,
        rw (on_initialize-drains cf at staker t t' pos due h') refl,
      )
