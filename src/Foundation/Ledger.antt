-- ===== src/Foundation/Ledger.antt =====
-- The funds of all accounts through the periods, against what the accounts have reserved.
use fusotao_protocol.Base.{
  ℕ, ◌+◌, ◌-◌, ◌<◌, ◌≤◌, ◌≡◌, ◌≢◌, refl, ap, ◌∙◌, Bool, none, some, List, [], ◌∷◌, ◌==◌, Bool-cases,
  Option-cases, inl, inr, arith,
}
use fusotao_protocol.Base.Result.{ok}
use fusotao_protocol.Base.Runs.{>>-after_ok}
use fusotao_protocol.Base.Assoc.{find}
use fusotao_protocol.Foundation.{
  FoundationData, Due, nothing, first, regular, due, one_less, Runtime, State, unlock_fund,
  unlock_funds, settle_due,
}
use fusotao_protocol.Foundation.Schedule.{locked, IsRunning, due-cases, mul_pred}
use fusotao_protocol.Foundation.Funds.{
  IsFunds, find-removed, find-inserted, removed-IsFunds, inserted-IsFunds,
}

locked-none : (now : ℕ) → locked now none ≡ 0
unfolding locked
locked-none now = refl

-- A fund with one time less.
abbrev fewer : FoundationData → FoundationData
fewer fund = record fund { times = fund.times - 1 }

one_less-running :
    (checks : Bool) (fund : FoundationData)
    → IsRunning fund
    → one_less checks fund ≡ ok (fewer fund)
unfolding one_less
one_less-running checks fund run = ground (arith, run)

-- Where the delay stands when something is due.
abbrev IsDueAt : ℕ → FoundationData → Due → Type 0
IsDueAt now fund regular = fund.delay_durations < now
IsDueAt now fund first = fund.delay_durations ≡ now
IsDueAt now fund nothing = fund.delay_durations ≢ now

-- A running fund has something due in every period, if only nothing.
due_some :
    (now : ℕ) (fund : FoundationData)
    → IsRunning fund
    → (what : Due) × (due (now + 1) fund ≡ ok what) × IsDueAt (now + 1) fund what
due_some now fund run = elim (due-cases now fund run.2) [
  | inl (e, late) ↦ (regular, e, late)
  | inr (inl (e, here)) ↦ (first, e, here)
  | inr (inr (e, other)) ↦ (nothing, e, other)
]

module _ {N : Type 0} (rt : Runtime N) where
  -- One fund is settled without a panic, and the funds stay well-formed.
  settle_due-IsFunds :
      (now k : ℕ) (fund : FoundationData) (what : Due) (s : State N)
      → IsRunning fund
      → IsFunds s.foundation
      → let (r, s') = settle_due rt k fund what s in (r ≡ ok tt) × IsFunds s'.foundation
  settle_due-IsFunds now k fund nothing s run h = (refl, h)
  settle_due-IsFunds now k fund first s run h = (refl, h)
  settle_due-IsFunds now k fund regular s run h =
      rw (one_less-running rt.overflow_checks fund run) (elim (Bool-cases (fund.times - 1 == 0)) [
        | inl e ↦ rw e (refl, removed-IsFunds k s.foundation h)
        | inr e ↦
            rw e (refl, inserted-IsFunds k (fewer fund) s.foundation (ground (arith, run, e)) h)
      ])

  unlock_funds-IsFunds :
      (now : ℕ) (funds : List (ℕ × FoundationData)) (s : State N)
      → IsFunds funds
      → IsFunds s.foundation
      → let (r, s') = unlock_funds rt (now + 1) funds s in (r ≡ ok tt) × IsFunds s'.foundation
  unfolding unlock_funds
  unlock_funds-IsFunds now [] s hs h = (refl, h)
  unlock_funds-IsFunds now ((k, fund) ∷ funds) s hs h =
      let (what, e, at) = due_some now fund hs.1.0 in
      let (done, kept) = settle_due-IsFunds now k fund what s hs.1.0 h in
      let s1 = (settle_due rt k fund what s).1 in
      let rest = unlock_funds-IsFunds now funds s1 hs.1.1 kept in
      rw (e, >>-after_ok (settle_due rt k fund what) (unlock_funds rt (now + 1) funds) s done) rest

  pub unlock_fund-IsFunds :
      (now : ℕ) (s : State N)
      → IsFunds s.foundation
      → let (r, s') = unlock_fund rt (now + 1) s in (r ≡ ok tt) × IsFunds s'.foundation
  unfolding unlock_fund
  unlock_fund-IsFunds now s h = unlock_funds-IsFunds now s.foundation s h h

  -- What an account has reserved in the other pallet, which gives back what is there.
  module _ (reserved : ℕ → N → ℕ)
      (gives_back : (who value : ℕ) (n : N)
        → value ≤ reserved who n
        → reserved who (rt.unreserve who value n) + value ≡ reserved who n)
      (others_stay : (who other value : ℕ) (n : N)
        → other ≢ who
        → reserved other (rt.unreserve who value n) ≡ reserved other n)
      (who : ℕ) where
    -- What the account has locked in its fund, and what it has reserved.
    abbrev locked_of : ℕ → State N → ℕ
    locked_of now s = locked now (find who s.foundation)

    abbrev reserved_of : State N → ℕ
    reserved_of s = reserved who s.native

    settle_due-other :
        (k : ℕ) (fund : FoundationData) (what : Due) (s : State N)
        → who ≢ k
        → IsRunning fund
        → let s' = (settle_due rt k fund what s).1 in
          (reserved_of s' ≡ reserved_of s) × (find who s'.foundation ≡ find who s.foundation)
    settle_due-other k fund nothing s apart run = (refl, refl)
    settle_due-other k fund first s apart run =
        (others_stay k who fund.first_amount s.native apart, refl)
    settle_due-other k fund regular s apart run =
        let gone = find-removed who k s.foundation in
        let less = find-inserted who k (fewer fund) s.foundation in
        let native = others_stay k who fund.amount s.native apart in
        rw (one_less-running rt.overflow_checks fund run) (elim (Bool-cases (fund.times - 1 == 0)) [
          | inl e ↦ rw e (native, ground (arith, gone, apart))
          | inr e ↦ rw e (native, ground (arith, less, apart))
        ])

    -- What is taken from the reserve of the account is what is no longer locked.
    settle_due-own :
        (now : ℕ) (fund : FoundationData) (what : Due) (s : State N)
        → IsRunning fund
        → IsDueAt (now + 1) fund what
        → find who s.foundation ≡ some fund
        → locked now (some fund) ≤ reserved_of s
        → let s' = (settle_due rt who fund what s).1 in
          reserved_of s' + locked now (some fund) ≡ reserved_of s + locked_of (now + 1) s'
    unfolding locked
    settle_due-own now fund nothing s run at there enough = ground (arith, there, at)
    settle_due-own now fund first s run at there enough =
        let back = gives_back who fund.first_amount s.native in
        ground (arith, there, at, enough, back)
    settle_due-own now fund regular s run late there enough =
        let parts = mul_pred fund.amount fund.times run.0 in
        let back = gives_back who fund.amount s.native (ground (arith, parts, enough)) in
        let gone = find-removed who who s.foundation in
        let less = find-inserted who who (fewer fund) s.foundation in
        rw (one_less-running rt.overflow_checks fund run) (elim (Bool-cases (fund.times - 1 == 0)) [
          | inl e ↦ rw e (ground (arith, e, gone, parts, back, late))
          | inr e ↦ rw e (ground (arith, e, less, parts, back, late))
        ])

    settle_due-same :
        (now k : ℕ) (other fund : FoundationData) (what : Due) (s : State N)
        → k ≡ who
        → other ≡ fund
        → IsRunning other
        → IsDueAt (now + 1) other what
        → find who s.foundation ≡ some fund
        → locked now (some fund) ≤ reserved_of s
        → let s' = (settle_due rt k other what s).1 in
          reserved_of s' + locked now (some fund) ≡ reserved_of s + locked_of (now + 1) s'
    settle_due-same now k other fund what s k_is fund_is run at there enough =
        rw (k_is, fund_is)
          (settle_due-own now fund what s (rw fund_is at run) (rw fund_is at at) there enough)

    unlock_funds-other :
        (now : ℕ) (funds : List (ℕ × FoundationData)) (s : State N)
        → IsFunds funds
        → IsFunds s.foundation
        → find who funds ≡ none
        → let s' = (unlock_funds rt (now + 1) funds s).1 in
          (reserved_of s' ≡ reserved_of s) × (find who s'.foundation ≡ find who s.foundation)
    unfolding unlock_funds find
    unlock_funds-other now [] s hs h missing = (refl, refl)
    unlock_funds-other now ((k, fund) ∷ funds) s hs h missing =
        let (what, e, at) = due_some now fund hs.1.0 in
        let (done, kept) = settle_due-IsFunds now k fund what s hs.1.0 h in
        let (same, there) = settle_due-other k fund what s (ground (arith, missing)) hs.1.0 in
        let (same', there') =
          unlock_funds-other now funds (settle_due rt k fund what s).1 hs.1.1 kept
            (ground (arith, missing)) in
        rw (e, >>-after_ok (settle_due rt k fund what) (unlock_funds rt (now + 1) funds) s done)
          (same' ∙ same, there' ∙ there)

    unlock_funds-own :
        (now : ℕ) (funds : List (ℕ × FoundationData)) (fund : FoundationData) (s : State N)
        → IsFunds funds
        → IsFunds s.foundation
        → find who funds ≡ some fund
        → find who s.foundation ≡ some fund
        → locked now (some fund) ≤ reserved_of s
        → let s' = (unlock_funds rt (now + 1) funds s).1 in
          reserved_of s' + locked now (some fund) ≡ reserved_of s + locked_of (now + 1) s'
    unfolding unlock_funds find
    unlock_funds-own now [] fund s hs h listed there enough = cc
    unlock_funds-own now ((k, other) ∷ funds) fund s hs h listed there enough =
        let (what, e, at) = due_some now other hs.1.0 in
        let (done, kept) = settle_due-IsFunds now k other what s hs.1.0 h in
        let s1 = (settle_due rt k other what s).1 in
        rw (e, >>-after_ok (settle_due rt k other what) (unlock_funds rt (now + 1) funds) s done)
          (elim (Bool-cases (who == k)) [
            | inl same ↦
                let k_is : k ≡ who = ground (arith, same) in
                let fund_is : other ≡ fund =
                  ap (λ o. elim o [ none ↦ fund | some f ↦ f ]) (rw same at listed) in
                let own =
                  settle_due-same now k other fund what s k_is fund_is hs.1.0 at there enough in
                let (reserve, found) =
                  unlock_funds-other now funds s1 hs.1.1 kept (rw k_is at hs.0) in
                let next : locked_of (now + 1) (unlock_funds rt (now + 1) funds s1).1
                    ≡ locked_of (now + 1) s1 =
                  ap (locked (now + 1)) found in
                omega (arith, reserve, own, next)
            | inr apart ↦
                let (reserve, found) =
                  settle_due-other k other what s (ground (arith, apart)) hs.1.0 in
                let later =
                  unlock_funds-own now funds fund s1 hs.1.1 kept (ground (arith, listed, apart))
                    (found ∙ there) (ground (arith, reserve, enough)) in
                later
                ∙ ap (λ r. r + locked_of (now + 1) (unlock_funds rt (now + 1) funds s1).1) reserve
          ])

    -- What a period takes from the reserve of the account is what it no longer has locked.
    pub unlock_fund-releases :
        (now : ℕ) (s : State N)
        → IsFunds s.foundation
        → locked_of now s ≤ reserved_of s
        → let s' = (unlock_fund rt (now + 1) s).1 in
          reserved_of s' + locked_of now s ≡ reserved_of s + locked_of (now + 1) s'
    unfolding unlock_fund
    unlock_fund-releases now s h enough = elim (Option-cases (find who s.foundation)) [
      | inl e ↦
          let (same, there) = unlock_funds-other now s.foundation s h h e in
          ground (arith, e, same, there, locked-none now, locked-none (now + 1))
      | inr (fund, e) ↦
          let own = unlock_funds-own now s.foundation fund s h h e e (rw e at enough) in rw e own
    ]
