-- ===== src/Reward/History.antt =====
-- Sequences of the calls of pallet-fuso-reward, of trades and of blocks.
-- Source: pallet-fuso-reward/src/lib.rs, `#[pallet::call]` and `Rewarding`.
use fusotao_protocol.Base.{ℕ, List, [], ◌∷◌}
use fusotao_protocol.Token.Types.{Origin}
use fusotao_protocol.Reward.{State, Config, take_reward, set_era_rewards, save_trading}
use fusotao_protocol.Reward.Volumes.{
  IsCovered, pending, take_reward-IsCovered, set_era_rewards-IsCovered, save_trading-IsCovered,
}

-- A call of the pallet, a trade that the verifier reports, or a block with its number.
pub data Call : Type 0 where
  takes : Origin → Call
  sets : Origin → ℕ → Call
  trades : ℕ → ℕ → ℕ → Call
  begins_block : ℕ → Call

module _ {N : Type 0} (cf : Config N) where
  unfoldable pub step : Call → State N → State N
  step (takes origin) s = (take_reward cf origin s).1
  step (sets origin era_rewards) s = (set_era_rewards cf origin era_rewards s).1
  step (trades trader vol at) s = (save_trading cf trader vol at s).1
  step (begins_block number) s = record s { now = number }

  unfoldable pub run : List Call → State N → State N
  run [] s = s
  run (call ∷ calls) s = run calls (step call s)

  step-IsCovered : (call : Call) (s : State N) → IsCovered s → IsCovered (step call s)
  unfolding step pending
  step-IsCovered (takes origin) s h = take_reward-IsCovered cf origin s h
  step-IsCovered (sets origin era_rewards) s h = set_era_rewards-IsCovered cf origin era_rewards s h
  step-IsCovered (trades trader vol at) s h = save_trading-IsCovered cf trader vol at s h
  step-IsCovered (begins_block number) s h = h

  -- Through every sequence of claims, changes of the rewards, trades and blocks no account has two
  -- entries, and in no era is more volume pending than was traded.
  pub run-IsCovered : (calls : List Call) (s : State N) → IsCovered s → IsCovered (run calls s)
  unfolding run
  run-IsCovered [] s h = h
  run-IsCovered (call ∷ calls) s h = run-IsCovered calls (step call s) (step-IsCovered call s h)
