-- ===== src/Verifier/Seasons/Laws.antt =====
-- What the shares leave as it is.
use fusotao_protocol.Base.{ℕ, List, [], ◌∷◌, arith}
use fusotao_protocol.Verifier.State.{State, Config, Distribution, Dominator}
use fusotao_protocol.Verifier.Reserving.Laws.{Keeps, KeepsStakes, unreserve-Keeps}
use fusotao_protocol.Verifier.Seasons.{
  put_profit, pay_shares, take_shares, close_season, close_seasons, unlock_pending,
  unlock_all_pending, on_initialize,
}

pub trans-Keeps : {N : Type 0} (s t u : State N) → Keeps s t → Keeps t u → Keeps s u
trans-Keeps s t u h k = ground arith

module _ {N : Type 0} (cf : Config N) where
  pub put_profit-Keeps :
      (dominator season currency balance : ℕ) (s : State N)
      → Keeps s (put_profit cf dominator season currency balance s).1
  unfolding put_profit
  put_profit-Keeps dominator season currency balance s = ground arith

  pay_shares-Keeps :
      (staker : ℕ) (shares : List (ℕ × ℕ)) (s : State N) → Keeps s (pay_shares cf staker shares s).1
  unfolding pay_shares
  pay_shares-Keeps staker [] s = ground arith
  pay_shares-Keeps staker (share ∷ shares) s = grind (arith, pay_shares-Keeps staker shares)

  pub take_shares-Keeps :
      (staker dominator : ℕ) (d : Distribution) (s : State N)
      → Keeps s (take_shares cf staker dominator d s).1
  unfolding take_shares
  take_shares-Keeps staker dominator d s = grind (arith, pay_shares-Keeps staker)

  -- The blocks keep the dominators and the stakes.
  close_seasons-KeepsStakes :
      (now : ℕ) (ds : List (ℕ × Dominator)) (s : State N)
      → KeepsStakes s (close_seasons cf now ds s).1
  unfolding close_seasons close_season
  close_seasons-KeepsStakes now [] s = ground arith
  close_seasons-KeepsStakes now (d ∷ ds) s = grind (arith, close_seasons-KeepsStakes now ds)

  unlock_pending-KeepsStakes :
      (now staker amount : ℕ) (s : State N)
      → KeepsStakes s (unlock_pending cf now staker amount s).1
  unfolding unlock_pending
  unlock_pending-KeepsStakes now staker amount s = grind (arith, unreserve-Keeps cf)

  unlock_all_pending-KeepsStakes :
      (now : ℕ) (stakes : List (ℕ × ℕ)) (s : State N)
      → KeepsStakes s (unlock_all_pending cf now stakes s).1
  unfolding unlock_all_pending
  unlock_all_pending-KeepsStakes now [] s = ground arith
  unlock_all_pending-KeepsStakes now (stake ∷ stakes) s =
      grind (arith, unlock_pending-KeepsStakes, unlock_all_pending-KeepsStakes now stakes)

  pub on_initialize-KeepsStakes : (now : ℕ) (s : State N) → KeepsStakes s (on_initialize cf now s).1
  unfolding on_initialize
  on_initialize-KeepsStakes now s =
      grind (arith, close_seasons-KeepsStakes, unlock_all_pending-KeepsStakes)
