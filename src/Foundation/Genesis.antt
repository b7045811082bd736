-- ===== src/Foundation/Genesis.antt =====
-- The genesis of the pallet and the blocks after it.
-- Source: pallet-fuso-foundation/src/lib.rs, `GenesisBuild::build`.
use fusotao_protocol.Base.{
  ℕ, ◌+◌, ◌*◌, ◌/◌, ◌<◌, ◌≤◌, ◌≡◌, ◌≢◌, ap, true, some, List, [], ◌∷◌, ◌==◌, ltb, Bool-cases,
  Option-cases, inl, inr, arith,
}
use fusotao_protocol.Base.Words.{u128_mod}
use fusotao_protocol.Base.Result.{ok}
use fusotao_protocol.Base.Assoc.{find}
use fusotao_protocol.Foundation.{FoundationData, Runtime, State, inserted, build}
use fusotao_protocol.Foundation.Schedule.{locked, IsRunning}
use fusotao_protocol.Foundation.Funds.{IsFunds, find-inserted, inserted-IsFunds}
use fusotao_protocol.Foundation.Blocks.{held_back, locked_at, run_blocks, run_blocks-releases}

-- Every configured fund has times and an interval.
abbrev pub IsConfigured : List (ℕ × FoundationData) → Type 0
IsConfigured [] = Unit {0}
IsConfigured ((k, fund) ∷ funds) = IsRunning fund × IsConfigured funds

locked_at_most :
    (now : ℕ) (fund : FoundationData)
    → locked now (some fund) ≤ fund.amount * fund.times + fund.first_amount
unfolding locked
locked_at_most now fund = ground arith

module _ {N : Type 0} (rt : Runtime N) (checks : rt.overflow_checks ≡ true) (reserved : ℕ → N → ℕ)
    (deposits : (k value who : ℕ) (n : N)
      → reserved who (rt.deposit_creating k value n) ≡ reserved who n)
    (reserves : (k value : ℕ) (n n' : N)
      → rt.reserve k value n ≡ some n'
      → reserved k n' ≡ reserved k n + value)
    (others_kept : (k value other : ℕ) (n n' : N)
      → rt.reserve k value n ≡ some n'
      → other ≢ k
      → reserved other n' ≡ reserved other n) where
  -- What an account has locked in a period is covered.
  abbrev IsCoveredAt : ℕ → ℕ → State N → Type 0
  IsCoveredAt now who s = locked now (find who s.foundation) ≤ reserved who s.native

  -- One configured fund.
  stored-covered :
      (now who k : ℕ) (fund : FoundationData) (s : State N) (n' : N)
      → let total = fund.amount * fund.times + fund.first_amount in
        rt.reserve k total (rt.deposit_creating k total s.native) ≡ some n'
        → IsCoveredAt now who s
        → IsCoveredAt now who (record s { native = n'; foundation = inserted k fund s.foundation })
  stored-covered now who k fund s n' e h =
      let total = fund.amount * fund.times + fund.first_amount in
      let before = deposits k total who s.native in
      let found = find-inserted who k fund s.foundation in
      elim (Bool-cases (who == k)) [
        | inl own ↦
            let same : who ≡ k = ground (arith, own) in
            let grown = reserves k total (rt.deposit_creating k total s.native) n' e in
            let most = locked_at_most now fund in
            let found' : find who (inserted k fund s.foundation) ≡ some fund =
              ground (arith, found, own) in
            let grown' : reserved who n'
                ≡ reserved who (rt.deposit_creating k total s.native) + total =
              rw same grown in
            rw found' (omega (arith, most, grown', before))
        | inr apart ↦
            let kept =
              others_kept k total who (rt.deposit_creating k total s.native) n' e
                (ground (arith, apart)) in
            let found' : find who (inserted k fund s.foundation) ≡ find who s.foundation =
              ground (arith, found, apart) in
            rw found' (omega (arith, kept, before, h))
      ]

  build-IsCoveredAt :
      (now who : ℕ) (funds : List (ℕ × FoundationData)) (s s' : State N)
      → IsConfigured funds
      → IsFunds s.foundation
      → IsCoveredAt now who s
      → build rt funds s ≡ (ok tt, s')
      → IsFunds s'.foundation × IsCoveredAt now who s'
  unfolding build
  build-IsCoveredAt now who [] s s' good h covered e =
      let same : s ≡ s' = ap (λ p. p.1) e in
      let both : IsFunds s.foundation × IsCoveredAt now who s = (h, covered) in rw same at both
  build-IsCoveredAt now who ((k, fund) ∷ funds) s s' good h covered e =
      elim (Bool-cases (ltb (fund.amount * fund.times) u128_mod)) [
        | inr over ↦ absurd (ground (arith, e, over, checks))
        | inl fits ↦
            elim (Bool-cases (ltb (fund.amount * fund.times + fund.first_amount) u128_mod)) [
              | inr over ↦ absurd (ground (arith, e, fits, over, checks))
              | inl fits' ↦
                  let total = fund.amount * fund.times + fund.first_amount in
                  elim (Option-cases (rt.reserve k total (rt.deposit_creating k total s.native))) [
                    | inl failed ↦ absurd (ground (arith, e, fits, fits', failed, checks))
                    | inr (n', done) ↦
                        let s1 = record s {
                          native = n';
                          foundation = inserted k fund s.foundation;
                        } in
                        build-IsCoveredAt now who funds s1 s' good.1
                          (inserted-IsFunds k fund s.foundation good.0 h)
                          (stored-covered now who k fund s n' done covered)
                          (ground (arith, e, fits, fits', done, checks))
                  ]
            ]
      ]

  module _
      (gives_back : (who value : ℕ) (n : N)
        → value ≤ reserved who n
        → reserved who (rt.unreserve who value n) + value ≡ reserved who n)
      (others_stay : (who other value : ℕ) (n : N)
        → other ≢ who
        → reserved other (rt.unreserve who value n) ≡ reserved other n)
      (lasts : 0 < rt.duration) where
    -- In a build with overflow checks, with a positive duration of a period, over a ledger where a
    -- deposit leaves what is reserved, a reservation that succeeds adds its amount to what the
    -- account has reserved, an unreservation takes back what is there, and both leave the other
    -- accounts, a genesis that succeeds on an empty storage of the pallet, of funds with an
    -- interval and times below 2 ^ 32 that are positive, is followed by any number of blocks that
    -- the hook runs through without a panic, with nothing else in between: after them the reserve
    -- of every account covers what its fund has locked, and the reserve lost, since the genesis,
    -- exactly what is no longer locked.
    pub build-covers :
        (funds : List (ℕ × FoundationData)) (who m : ℕ) (s s' : State N)
        → IsConfigured funds
        → s.foundation ≡ []
        → build rt funds s ≡ (ok tt, s')
        → let (r, t) = run_blocks rt m 0 s' in
          (r ≡ ok tt)
          × (locked_at rt who m t ≤ held_back reserved who t)
          × (held_back reserved who t + locked_at rt who 0 s'
              ≡ held_back reserved who s' + locked_at rt who m t)
    unfolding find locked
    build-covers funds who m s s' good empty e =
        let none_yet : IsFunds s.foundation = rw empty tt in
        let nothing_locked : IsCoveredAt (0 / rt.duration) who s = rw empty (omega arith) in
        let (funded, covered) =
          build-IsCoveredAt (0 / rt.duration) who funds s s' good none_yet nothing_locked e in
        let (done, kept) =
          run_blocks-releases rt reserved gives_back others_stay lasts who m 0 s' funded covered in
        let at : 0 + m ≡ m = omega arith in
        let kept' = rw at at kept in (done, omega (arith, covered, kept'), kept')
