-- ===== src/Reward/Claims.antt =====
-- Claims of rewards that are repeated.
use fusotao_protocol.Base.{ℕ, ◌<◌, ◌≡◌, ◌==◌, some, ◌⊎◌, inl, inr, Bool-cases, arith}
use fusotao_protocol.Base.Words.{u128_mod}
use fusotao_protocol.Base.Result.{ok, Result-cases}
use fusotao_protocol.Base.Dict.{lookup, lookup-put}
use fusotao_protocol.Reward.{
  Reward, State, Config, entry_of, reward_of, put_reward, era_start, rotated, rotate_reward,
  pay_out, take_confirmed, mutate_reward, claim_reward,
}

-- An entry from which nothing can be claimed in an era.
abbrev pub Idle : ℕ → Reward → Type 0
Idle era r =
    (r.confirmed ≡ 0) × ((r.pending_vol < u128_mod) × ((r.pending_vol ≡ 0) ⊎ (r.last_modify ≡ era)))

module _ {N : Type 0} (cf : Config N) where
  -- Nothing is paid for an idle entry.
  claim_reward_of_nothing :
      (who at era : ℕ) (s : State N)
      → era_start cf at ≡ ok era
      → Idle era (reward_of who s)
      → (claim_reward cf who at s).0 ≡ ok 0
  unfolding claim_reward rotate_reward rotated
  claim_reward_of_nothing who at era s e h = ground (arith, e, h)

  rotated-room :
      (era : ℕ) (r r' : Reward) (s : State N)
      → rotated cf era 0 r s ≡ ok r'
      → (r'.pending_vol < u128_mod) × (r'.last_modify ≡ era)
  unfolding rotated
  rotated-room era r r' s h = ground (arith, h)

  -- An entry that was paid is idle.
  mutate_reward-Idle :
      (who era v : ℕ) (r : Reward) (s s' : State N)
      → lookup (entry_of who) s.rewards ≡ some r
      → r.pending_vol < u128_mod
      → r.last_modify ≡ era
      → mutate_reward cf who s ≡ (ok v, s')
      → Idle era (reward_of who s')
  unfolding mutate_reward take_confirmed pay_out
  mutate_reward-Idle who era v r s s' e small same h =
      grind (arith, e, small, same, h, lookup-put {V = Reward})

  -- What a claim leaves is idle in its era.
  claim_reward-Idle :
      (who at era v : ℕ) (s s' : State N)
      → era_start cf at ≡ ok era
      → claim_reward cf who at s ≡ (ok v, s')
      → Idle era (reward_of who s')
  unfolding claim_reward rotate_reward
  claim_reward-Idle who at era v s s' e h =
      elim (Result-cases (rotated cf era 0 (reward_of who s) s)) [
        | inr failed ↦ absurd (let h' = h in let f = failed in let e' = e in ground arith)
        | inl (r, e1) ↦
            let room = rotated-room era (reward_of who s) r s e1 in
            let s1 = (put_reward who (some r) s).1 in
            let there = lookup-put (entry_of who) (entry_of who) (some r) s.rewards in
            elim (Bool-cases (r.confirmed == 0)) [
              | inl nothing_due ↦ ground (arith, e, e1, h, room, nothing_due, there)
              | inr due ↦
                  mutate_reward-Idle who era v r s1 s' (ground (arith, there)) room.0 room.1
                    (ground (arith, e, e1, h, due))
            ]
      ]

  -- Once a claim has succeeded, the same claim pays nothing more.
  pub claim_reward-again :
      (who at v : ℕ) (s s' : State N)
      → claim_reward cf who at s ≡ (ok v, s')
      → (claim_reward cf who at s').0 ≡ ok 0
  claim_reward-again who at v s s' h = elim (Result-cases (era_start cf at)) [
    | inl (era, e) ↦
        claim_reward_of_nothing who at era s' e (claim_reward-Idle who at era v s s' e h)
    | inr failed ↦ absurd (let h' = h in let f = failed in unfold claim_reward in ground arith)
  ]
