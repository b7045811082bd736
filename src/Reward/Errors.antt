-- ===== src/Reward/Errors.antt =====
-- What trades and rotations fail with.
use fusotao_protocol.Base.{ℕ, ◌≤◌, ◌≡◌, none, arith}
use fusotao_protocol.Base.Result.{err}
use fusotao_protocol.Base.Dict.{total-put}
use fusotao_protocol.Reward.{
  Error, overflow, State, Config, entry_of, reward_of, era_start, settle_era, rotated,
  rotate_reward, save_trading,
}
use fusotao_protocol.Reward.Volumes.{IsCovered, pending, pending_in}

module _ {N : Type 0} (cf : Config N) where
  -- No trader has more pending than its era has.
  entry_covered :
      (who : ℕ) (s : State N)
      → IsCovered s
      → (reward_of who s).pending_vol ≤ s.volumes (reward_of who s).last_modify
  unfolding pending
  entry_covered who s h =
      let era = (reward_of who s).last_modify in
      let split = total-put (pending_in era) (entry_of who) none s.rewards h.0 in
      let room = h.1 era in ground (arith, split, room)

  -- Where no account has two entries and the pending volumes are within the volumes of the eras, a
  -- trade that is refused failed by an overflow, never by a division by zero, and leaves the
  -- storage as it was.
  pub save_trading-errors :
      (trader vol at : ℕ) (s s' : State N) (x : Error)
      → IsCovered s
      → save_trading cf trader vol at s ≡ (err x, s')
      → (x ≡ overflow) × (s' ≡ s)
  unfolding save_trading rotate_reward rotated settle_era era_start
  save_trading-errors trader vol at s s' x h e =
      let covered = entry_covered trader s h in ground (arith, covered, e)
