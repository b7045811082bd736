-- ===== src/Reward/Tests.antt =====
-- A trade in one era whose reward is claimed in the next.
use fusotao_protocol.Base.{ℕ, ◌-◌, ◌*◌, ◌/◌, ◌≡◌, refl, true, List, [], ◌∷◌, arith}
use fusotao_protocol.Base.Words.{u128_mod}
use fusotao_protocol.Base.Result.{Result, ok, err}
use fusotao_protocol.Base.Action.{Action, gets, lift, modify, ◌>>=◌}
use fusotao_protocol.Base.Dict.{total, lookup, insert, erase}
use fusotao_protocol.Token.Types.{signed, root}
use fusotao_protocol.Reward.{
  Error, overflow, Config, State, era_start, settle_era, rotated, rotate_reward, pay_out,
  take_confirmed, mutate_reward, claim_reward, save_trading,
}
use fusotao_protocol.Reward.Volumes.{IsCovered, pending}
use fusotao_protocol.Reward.Claims.{claim_reward-again}
use fusotao_protocol.Reward.Errors.{save_trading-errors}
use fusotao_protocol.Reward.History.{
  Call, takes, sets, trades, begins_block, step, run, run-IsCovered,
}

-- One account over its free balance and the issuance.
abbrev account : ℕ → ℕ → (ℕ × ℕ → Action (ℕ × ℕ) Error (ℕ × ℕ)) → Action (ℕ × ℕ) Error (Unit {0})
account token who f = do free ← gets (λ n. n.0); b ← f (free, 0); modify (λ n. (b.0, n.1))

abbrev issuance : ℕ → (ℕ → Result Error ℕ) → Action (ℕ × ℕ) Error (Unit {0})
issuance token f = do v ← gets (λ n. n.1); v' ← lift (f v); modify (λ n. (n.0, v'))

-- Eras of ten blocks, with 1000 for each era.
abbrev eras_of_10 : Config (ℕ × ℕ)
eras_of_10 = record {
  era_duration = 10;
  reward_terminate_at = 100;
  overflow_checks = true;
  native_token_id = 0;
  portion = λ p q x. p * x / q;
  try_mutate_account = account;
  try_mutate_issuance = issuance;
}

abbrev nothing_yet : State (ℕ × ℕ)
nothing_yet = record {
  rewards = [];
  era_rewards = 1000;
  volumes = λ era. 0;
  events = [];
  now = 12;
  native = (5, 5000);
}

-- Accounts 1 and 2 trade 30 and 10 in the era from block 10 on.
abbrev traded : State (ℕ × ℕ)
traded = run eras_of_10 (trades 1 30 12 ∷ trades 2 10 19 ∷ []) nothing_yet

abbrev claimed : State (ℕ × ℕ)
claimed = (claim_reward eras_of_10 1 25 traded).1

claim_once : claim_reward eras_of_10 1 25 traded ≡ (ok 750, claimed)
unfolding claim_reward run step save_trading era_start rotate_reward rotated settle_era
    mutate_reward take_confirmed pay_out lookup insert erase
claim_once = refl

claim_reward-again_example : (claim_reward eras_of_10 1 25 claimed).0 ≡ ok 0
claim_reward-again_example = claim_reward-again eras_of_10 1 25 750 traded claimed claim_once

nothing_yet-IsCovered : IsCovered nothing_yet
unfolding pending total
nothing_yet-IsCovered = (tt, λ era. omega arith)

abbrev two_eras : List Call
two_eras =
    trades 1 30 12
    ∷ trades 2 10 19
    ∷ sets root 500
    ∷ begins_block 25
    ∷ takes (signed 1)
    ∷ trades 2 40 25
    ∷ []

run-IsCovered_example : IsCovered (run eras_of_10 two_eras nothing_yet)
run-IsCovered_example = run-IsCovered eras_of_10 two_eras nothing_yet nothing_yet-IsCovered

-- All that an era can hold is traded.
abbrev full_era : State (ℕ × ℕ)
full_era = record nothing_yet { volumes = λ era. u128_mod - 1 }

full_era-IsCovered : IsCovered full_era
unfolding pending total
full_era-IsCovered = (tt, λ era. omega arith)

one_too_many : save_trading eras_of_10 1 1 12 full_era ≡ (err overflow, full_era)
unfolding save_trading era_start
one_too_many = refl

save_trading-errors_example : (let x : Error = overflow in x ≡ overflow) × (full_era ≡ full_era)
save_trading-errors_example =
    save_trading-errors eras_of_10 1 1 12 full_era full_era overflow full_era-IsCovered one_too_many
