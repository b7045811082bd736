-- ===== src/Foundation/Blocks.antt =====
-- The hook of the pallet over the blocks.
use native.Mathlib.Nat.{mod-lt, mul-le-mul_left}
use native.Mathlib.Omega.{div_any}
use fusotao_protocol.Base.{
  ℕ, zero, suc, ◌+◌, ◌/◌, ◌%◌, ◌<◌, ◌≤◌, ◌≡◌, ◌≢◌, refl, ap, ◌==◌, Bool-cases, inl, inr, true,
  false, arith,
}
use fusotao_protocol.Base.Result.{ok}
use fusotao_protocol.Base.Action.{Action, pure, ◌>>◌}
use fusotao_protocol.Base.Runs.{>>-after_ok}
use fusotao_protocol.Foundation.{Error, Runtime, State, initialize}
use fusotao_protocol.Base.Assoc.{find}
use fusotao_protocol.Foundation.Schedule.{locked}
use fusotao_protocol.Foundation.Funds.{IsFunds}
use fusotao_protocol.Foundation.Ledger.{unlock_fund-IsFunds, unlock_fund-releases}

-- A quotient is the same in the next step, or one more where the remainder is zero.
div-suc_same : (b d : ℕ) → 0 < d → ((b + 1) % d == 0) ≡ false → (b + 1) / d ≡ b / d
div-suc_same b d pos e =
    let at = div_any b d in
    let next = div_any (b + 1) d in
    let small = mod-lt b pos in
    let small' = mod-lt (b + 1) pos in
    let up = mul-le-mul_left {m = b / d + 1} {n = (b + 1) / d} d in
    let down = mul-le-mul_left {m = (b + 1) / d + 1} {n = b / d} d in
    ground (arith, at, next, small, small', up, down, e)

div-suc_more : (b d : ℕ) → 0 < d → ((b + 1) % d == 0) ≡ true → (b + 1) / d ≡ b / d + 1
div-suc_more b d pos e =
    let at = div_any b d in
    let next = div_any (b + 1) d in
    let small = mod-lt b pos in
    let up = mul-le-mul_left {m = b / d + 1 + 1} {n = (b + 1) / d} d in
    let down = mul-le-mul_left {m = (b + 1) / d} {n = b / d} d in
    ground (arith, at, next, small, up, down, e)

-- `on_initialize` in the blocks from `b + 1` on.
unfoldable pub run_blocks : {N : Type 0} → Runtime N → ℕ → ℕ → Action (State N) Error (Unit {0})
run_blocks rt zero b = pure tt
run_blocks rt (suc m) b = initialize rt (b + 1) >> run_blocks rt m (b + 1)

module _ {N : Type 0} where
  -- What an account has reserved.
  abbrev pub held_back : (ℕ → N → ℕ) → ℕ → State N → ℕ
  held_back reserved who s = reserved who s.native

  -- What its fund has locked in the period of a block.
  abbrev pub locked_at : Runtime N → ℕ → ℕ → State N → ℕ
  locked_at rt who b s = locked (b / rt.duration) (find who s.foundation)

module _ {N : Type 0} (rt : Runtime N) (reserved : ℕ → N → ℕ)
    (gives_back : (who value : ℕ) (n : N)
      → value ≤ reserved who n
      → reserved who (rt.unreserve who value n) + value ≡ reserved who n)
    (others_stay : (who other value : ℕ) (n : N)
      → other ≢ who
      → reserved other (rt.unreserve who value n) ≡ reserved other n)
    (lasts : 0 < rt.duration) (who : ℕ) where
  initialize-releases :
      (b : ℕ) (s : State N)
      → IsFunds s.foundation
      → locked_at rt who b s ≤ held_back reserved who s
      → let (r, s') = initialize rt (b + 1) s in
        (r ≡ ok tt)
        × IsFunds s'.foundation
        × (held_back reserved who s' + locked_at rt who b s
            ≡ held_back reserved who s + locked_at rt who (b + 1) s')
  unfolding initialize
  initialize-releases b s h enough =
      let set : (rt.duration == 0) ≡ false = ground (arith, lasts) in
      elim (Bool-cases ((b + 1) % rt.duration == 0)) [
        | inl starts ↦
            let q = div-suc_more b rt.duration lasts starts in
            let (done, kept) = unlock_fund-IsFunds rt (b / rt.duration) s h in
            let here =
              unlock_fund-releases rt reserved gives_back others_stay who (b / rt.duration) s h
                enough in
            rw (set, starts, q) (done, kept, here)
        | inr within ↦
            let q = div-suc_same b rt.duration lasts within in rw (set, within, q) (refl, h, refl)
      ]

  -- Over a ledger that gives back what an account has reserved and leaves the other accounts as
  -- they are, with a positive duration of a period, where no account has two funds and every fund
  -- has an interval and times below 2 ^ 32 that are positive, and where the reserve of an account
  -- covers what its fund has locked, the hook runs through any number of consecutive blocks, with
  -- nothing else in between, without a panic, and what the reserve of the account loses on the way
  -- is exactly what its fund no longer has locked: the amount for each time that is left, and the
  -- first amount until the delay is over.
  pub run_blocks-releases :
      (m b : ℕ) (s : State N)
      → IsFunds s.foundation
      → locked_at rt who b s ≤ held_back reserved who s
      → let (r, s') = run_blocks rt m b s in
        (r ≡ ok tt)
        × (held_back reserved who s' + locked_at rt who b s
            ≡ held_back reserved who s + locked_at rt who (b + m) s')
  unfolding run_blocks
  run_blocks-releases zero b s h enough =
      let at_now : locked_at rt who (b + 0) s ≡ locked_at rt who b s =
        ap (λ i. locked_at rt who i s) (omega arith) in
      (refl, omega (arith, at_now))
  run_blocks-releases (suc m) b s h enough =
      let (done, kept, here) = initialize-releases b s h enough in
      let s1 = (initialize rt (b + 1) s).1 in
      let (done', there) = run_blocks-releases m (b + 1) s1 kept (omega (arith, here, enough)) in
      let end = (run_blocks rt m (b + 1) s1).1 in
      let later : locked_at rt who (b + suc m) end ≡ locked_at rt who (b + 1 + m) end =
        ap (λ i. locked_at rt who i end) (omega arith) in
      rw (>>-after_ok (initialize rt (b + 1)) (run_blocks rt m (b + 1)) s done)
        (done', omega (arith, later, here, there))
