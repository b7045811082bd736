-- ===== src/Foundation/Schedule.antt =====
-- What a fund still has locked after a period, and what is due in the next one.
use fusotao_protocol.Base.{
  ℕ, zero, suc, ◌+◌, ◌-◌, ◌*◌, ◌<◌, ◌≡◌, ◌≢◌, Option, none, some, ltb, if◌then◌else◌, arith, ◌⊎◌,
  ◌⊎◌,
}
use fusotao_protocol.Base.Result.{ok}
use fusotao_protocol.Foundation.{FoundationData, nothing, first, regular, u32_mod, due}

-- What a fund still has locked after the period `now`; one that was removed has nothing.
unfoldable pub locked : ℕ → Option FoundationData → ℕ
locked now none = 0
locked now (some fund) =
    fund.amount * fund.times + (if ltb now fund.delay_durations then fund.first_amount else 0)

-- A fund that is kept has times left, and an interval.
abbrev pub IsRunning : FoundationData → Type 0
IsRunning fund = (0 < fund.times) × (fund.times < u32_mod) × (0 < fund.interval_durations)

pub mul_pred : (a t : ℕ) → 0 < t → a * (t - 1) + a ≡ a * t
mul_pred a zero pos = omega (arith, pos)
mul_pred a (suc t) pos = grind arith

pub due-cases :
    (now : ℕ) (fund : FoundationData)
    → 0 < fund.interval_durations
    → ((due (now + 1) fund ≡ ok regular) × (fund.delay_durations < now + 1))
      ⊎ (((due (now + 1) fund ≡ ok first) × (fund.delay_durations ≡ now + 1))
          ⊎ ((due (now + 1) fund ≡ ok nothing) × (fund.delay_durations ≢ now + 1)))
unfolding due
due-cases now fund pos = ground arith
