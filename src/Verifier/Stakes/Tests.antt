-- ===== src/Verifier/Stakes/Tests.antt =====
-- A stake that is withdrawn at block 57 and released at block 57650.
use fusotao_protocol.Base.{ℕ, ◌+◌, ◌<◌, ◌≤◌, ◌≢◌, ◌≡◌, refl, ◌==◌, if◌then◌else◌, arith}
use fusotao_protocol.Base.Result.{ok}
use fusotao_protocol.Base.Dict.{IsDict, lookup, insert, erase}
use fusotao_protocol.Base.Assoc.{find, store}
use fusotao_protocol.Verifier.State.{State, Config}
use fusotao_protocol.Verifier.SampleState.{Ledger, per_account, sample_over, active_over}
use fusotao_protocol.Verifier.Reserving.{reserve, unreserve}
use fusotao_protocol.Verifier.Seasons.{
  on_initialize, close_season, close_seasons, prefix, unlock_pending, unlock_all_pending,
  current_season, take_shares, pay_shares, gather_shares,
}
use fusotao_protocol.Verifier.Seasons.Payback.{owed}
use fusotao_protocol.Verifier.Stakes.{
  move_stake, queue_unstaking, lower_staking, record_unstake, unstake_from,
}
use fusotao_protocol.Verifier.Stakes.Release.{due_at, unstake_from-released}

abbrev over_accounts : Config Ledger
over_accounts = sample_over per_account

-- Account 7 has 1500 reserved.
abbrev one_active : State Ledger
one_active = active_over (λ who. if who == 7 then 1_500 else 0)

abbrev held : ℕ → Ledger → ℕ
held who n = n who

gives_back :
    (who value : ℕ) (n : Ledger)
    → value ≤ held who n
    → let (r, n') = per_account.unreserve 0 who value n in
      (r ≡ ok tt) × (held who n' + value ≡ held who n)
gives_back who value n enough = ground (arith, enough)

others_stay :
    (who other value : ℕ) (n : Ledger)
    → other ≢ who
    → held other (per_account.unreserve 0 who value n).1 ≡ held other n
others_stay who other value n apart = ground (arith, apart)

abbrev withdrawn : State Ledger
withdrawn = (unstake_from over_accounts 7 5 1_400 one_active).1

abbrev released : State Ledger
released = (on_initialize over_accounts 57_650 withdrawn).1

withdrawal : unstake_from over_accounts 7 5 1_400 one_active ≡ (ok tt, withdrawn)
unfolding unstake_from lower_staking move_stake queue_unstaking record_unstake reserve unreserve
    take_shares pay_shares gather_shares current_season find store lookup insert erase
withdrawal = refl

release_of_it : on_initialize over_accounts 57_650 withdrawn ≡ (ok tt, released)
unfolding on_initialize close_season close_seasons unlock_pending unlock_all_pending prefix
    unstake_from lower_staking move_stake queue_unstaking record_unstake reserve unreserve
    take_shares pay_shares gather_shares current_season find store lookup insert erase
release_of_it = refl

one_waits : IsDict withdrawn.pending_unstakings
unfolding unstake_from lower_staking move_stake queue_unstaking record_unstake reserve unreserve
    take_shares pay_shares gather_shares current_season find store lookup insert erase
one_waits = (refl, tt)

all_covered :
    (due_at over_accounts 57 7 withdrawn ≤ owed over_accounts 7 withdrawn)
    × (due_at over_accounts 57 7 withdrawn ≤ held 7 withdrawn.native)
unfolding unstake_from lower_staking move_stake queue_unstaking record_unstake reserve unreserve
    take_shares pay_shares gather_shares current_season find store lookup insert erase
all_covered = (omega arith, omega arith)

unstake_from-released_example :
    (57 < 57_650)
    × (due_at over_accounts 57 7 withdrawn ≡ due_at over_accounts 57 7 one_active + 1_400)
    × (1_400 ≤ due_at over_accounts 57 7 withdrawn)
    × (owed over_accounts 7 released + due_at over_accounts 57 7 withdrawn
        ≡ owed over_accounts 7 withdrawn)
    × (held 7 released.native + due_at over_accounts 57 7 withdrawn ≡ held 7 withdrawn.native)
    × (due_at over_accounts 57 7 released ≡ 0)
unstake_from-released_example =
    unstake_from-released over_accounts refl held gives_back others_stay 7 5 1_400 one_active
      withdrawn withdrawn released refl withdrawal (omega arith) one_waits all_covered.0
      all_covered.1 release_of_it
