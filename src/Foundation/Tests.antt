-- ===== src/Foundation/Tests.antt =====
-- A fund that unlocks 5 at period 2 and then 10 twice, every 3 periods of 100 blocks.
use fusotao_protocol.Base.{
  ℕ, ◌+◌, ◌-◌, ◌≤◌, ◌≡◌, ◌≢◌, refl, ap, sym, true, Option, none, some, [], ◌∷◌, ◌==◌, if◌then◌else◌,
  arith,
}
use fusotao_protocol.Base.Assoc.{find}
use fusotao_protocol.Base.Result.{ok}
use fusotao_protocol.Foundation.{
  FoundationData, Runtime, State, due, one_less, unlock_fund, unlock_funds, initialize, build,
}
use fusotao_protocol.Foundation.Schedule.{locked}
use fusotao_protocol.Foundation.Funds.{IsFunds}
use fusotao_protocol.Foundation.Blocks.{held_back, locked_at, run_blocks, run_blocks-releases}
use fusotao_protocol.Foundation.Genesis.{build-covers}

abbrev small_fund : FoundationData
small_fund = record {
  delay_durations = 2;
  interval_durations = 3;
  times = 2;
  amount = 10;
  first_amount = 5;
}

-- The native ledger has the reserve of each account.
abbrev Reserve : Type 0
Reserve = ℕ → ℕ

abbrev small_runtime : Runtime Reserve
small_runtime = record {
  duration = 100;
  overflow_checks = true;
  deposit_creating = λ who value n. n;
  reserve = λ who value n. some (λ a. if a == who then n a + value else n a);
  unreserve = λ who value n a. if a == who then n a - value else n a;
}

abbrev held : ℕ → Reserve → ℕ
held who n = n who

small_gives_back :
    (who value : ℕ) (n : Reserve)
    → value ≤ held who n
    → held who (small_runtime.unreserve who value n) + value ≡ held who n
small_gives_back who value n enough = ground (arith, enough)

small_others_stay :
    (who other value : ℕ) (n : Reserve)
    → other ≢ who
    → held other (small_runtime.unreserve who value n) ≡ held other n
small_others_stay who other value n apart = ground (arith, apart)

abbrev small_state : State Reserve
small_state = record {
  foundation = (7, small_fund) ∷ [];
  events = [];
  native = λ who. if who == 7 then 25 else 0;
}

small_state-IsFunds : IsFunds small_state.foundation
unfolding find
small_state-IsFunds = (refl, ((omega arith, omega arith, omega arith), tt))

run_blocks-releases_example :
    let (r, s') = run_blocks small_runtime 600 0 small_state in
    (r ≡ ok tt)
    × (held_back held 7 s' + locked_at small_runtime 7 0 small_state
        ≡ held_back held 7 small_state + locked_at small_runtime 7 600 s')
unfolding find locked
run_blocks-releases_example =
    run_blocks-releases small_runtime held small_gives_back small_others_stay (omega arith) 7 600 0
      small_state small_state-IsFunds (omega arith)

-- At period 5, 10 of the 25 are given back, and 1 time is left.
fifth_period :
    let s' = (initialize small_runtime 500 small_state).1 in
    (s'.native 7 ≡ 15) × (s'.foundation ≡ (7, record small_fund { times = 1 }) ∷ [])
unfolding initialize unlock_fund unlock_funds due one_less
fifth_period = (refl, refl)

abbrev before_genesis : State Reserve
before_genesis = record { foundation = []; events = []; native = λ who. 0 }

-- The genesis configures the fund of account 7.
abbrev after_genesis : State Reserve
after_genesis = (build small_runtime ((7, small_fund) ∷ []) before_genesis).1

abbrev held_in : ℕ → Option Reserve → ℕ
held_in who none = 0
held_in who (some n) = n who

small_reserves :
    (k value : ℕ) (n n' : Reserve)
    → small_runtime.reserve k value n ≡ some n'
    → held k n' ≡ held k n + value
small_reserves k value n n' e =
    let at : held k n' ≡ (if k == k then n k + value else n k) = sym (ap (held_in k) e) in
    ground (arith, at)

small_others_kept :
    (k value other : ℕ) (n n' : Reserve)
    → small_runtime.reserve k value n ≡ some n'
    → other ≢ k
    → held other n' ≡ held other n
small_others_kept k value other n n' e apart =
    let at : held other n' ≡ (if other == k then n other + value else n other) =
      sym (ap (held_in other) e) in
    ground (arith, at, apart)

build-covers_example :
    let (r, t) = run_blocks small_runtime 600 0 after_genesis in
    (r ≡ ok tt)
    × (locked_at small_runtime 7 600 t ≤ held_back held 7 t)
    × (held_back held 7 t + locked_at small_runtime 7 0 after_genesis
        ≡ held_back held 7 after_genesis + locked_at small_runtime 7 600 t)
unfolding find locked build
build-covers_example =
    build-covers small_runtime refl held (λ k value who n. refl) small_reserves small_others_kept
      small_gives_back small_others_stay (omega arith) ((7, small_fund) ∷ []) 7 600 before_genesis
      after_genesis ((omega arith, omega arith, omega arith), tt) refl refl
