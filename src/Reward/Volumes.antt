-- ===== src/Reward/Volumes.antt =====
-- The volumes that are pending, against the volumes of the eras.
use fusotao_protocol.Base.{
  ℕ, none, some, ◌+◌, ◌≤◌, ◌≡◌, ◌==◌, ltb, if◌then◌else◌, inl, inr, Bool-cases, Option,
  Option-cases, arith,
}
use fusotao_protocol.Base.Words.{checked_add}
use fusotao_protocol.Base.Result.{ok, Result-cases}
use fusotao_protocol.Base.Runs.{keep_ok-holds, bind_result-holds}
use fusotao_protocol.Base.Assoc.{at_1}
use fusotao_protocol.Base.Dict.{IsDict, total, total-put, put-IsDict, lookup}
use fusotao_protocol.Token.Types.{Origin, root, unsigned, signed}
use fusotao_protocol.Reward.{
  Reward, State, Config, entry_of, reward_of, put_reward, era_start, rotated, rotate_reward,
  pay_out, take_confirmed, mutate_reward, claim_reward, take_reward, set_era_rewards, save_trading,
}

-- What an entry adds to the pending volume of an era.
abbrev pub pending_in : ℕ → ℕ → ℕ → Reward → ℕ
pending_in era who _ r = if r.last_modify == era then r.pending_vol else 0

module _ {N : Type 0} where
  -- The volume of an era that no trader has taken yet.
  unfoldable pub pending : ℕ → State N → ℕ
  pending era s = total (pending_in era) s.rewards

  -- With `vol` more to come in an era, the pending volumes stay within the volumes.
  abbrev pub HasRoom : ℕ → ℕ → State N → Type 0
  HasRoom at vol s =
      IsDict s.rewards
      × ((era : ℕ) → pending era s + (if at == era then vol else 0) ≤ s.volumes era)

  -- No account has two entries, and in no era is more pending than was traded.
  abbrev pub IsCovered : State N → Type 0
  IsCovered s = IsDict s.rewards × ((era : ℕ) → pending era s ≤ s.volumes era)

module _ {N : Type 0} (cf : Config N) where
  -- The entry after a rotation.
  rotated-pending :
      (at vol : ℕ) (r r' : Reward) (s : State N)
      → rotated cf at vol r s ≡ ok r'
      → (r'.last_modify ≡ at)
        × (r'.pending_vol ≡ (if at == r.last_modify then r.pending_vol + vol else vol))
  unfolding rotated
  rotated-pending at vol r r' s h = ground (arith, h)

  put_reward-room :
      (at vol account : ℕ) (r' : Reward) (s : State N)
      → HasRoom at vol s
      → rotated cf at vol (reward_of account s) s ≡ ok r'
      → IsCovered (put_reward account (some r') s).1
  unfolding pending
  put_reward-room at vol account r' s h e = (
    put-IsDict (entry_of account) (some r') s.rewards h.0,
    λ era.
        let after = total-put (pending_in era) (entry_of account) (some r') s.rewards h.0 in
        let room = h.1 era in
        let entry = rotated-pending at vol (reward_of account s) r' s e in
        ground (arith, after, room, entry),
  )

  room-IsCovered : (at vol : ℕ) (s : State N) → HasRoom at vol s → IsCovered s
  room-IsCovered at vol s h = (h.0, λ era. let room = h.1 era in ground (arith, room))

  rotate_reward-IsCovered :
      (at vol account : ℕ) (s : State N)
      → HasRoom at vol s
      → IsCovered (rotate_reward cf at vol account s).1
  unfolding rotate_reward
  rotate_reward-IsCovered at vol account s room =
      elim (Result-cases (rotated cf at vol (reward_of account s) s)) [
        | inl (r', e) ↦ rw e (put_reward-room at vol account r' s room e)
        | inr (inl (x, e)) ↦ rw e (room-IsCovered at vol s room)
        | inr (inr e) ↦ rw e (room-IsCovered at vol s room)
      ]

  -- The entry without its confirmed reward.
  abbrev cleared : Reward → Option Reward
  cleared r = if ltb 0 r.pending_vol then some (record r { confirmed = 0 }) else none

  cleared-IsCovered :
      (who : ℕ) (r : Reward) (s : State N)
      → lookup (entry_of who) s.rewards ≡ some r
      → IsCovered s
      → IsCovered (put_reward who (cleared r) s).1
  unfolding pending
  cleared-IsCovered who r s e h = (
    put-IsDict (entry_of who) (cleared r) s.rewards h.0,
    λ era.
        let after = total-put (pending_in era) (entry_of who) (cleared r) s.rewards h.0 in
        let room = h.1 era in ground (arith, after, room, e),
  )

  paying-IsCovered :
      (who : ℕ) (r : Reward) (s : State N)
      → lookup (entry_of who) s.rewards ≡ some r
      → IsCovered s
      → IsCovered (take_confirmed cf who (some r) s).1
  unfolding take_confirmed pay_out pending
  paying-IsCovered who r s e h = elim (Bool-cases (ltb 0 r.confirmed)) [
    | inr nothing_paid ↦ rw nothing_paid (cleared-IsCovered who r s e h)
    | inl some_paid ↦ rw some_paid (elim (Result-cases (pay_out cf who r.confirmed s).0) [
      | inl (u, e1) ↦ rw e1 (cleared-IsCovered who r (pay_out cf who r.confirmed s).1 e h)
      | inr (inl (x, e1)) ↦ rw e1 h
      | inr (inr e1) ↦ rw e1 h
    ])
  ]

  mutate_reward-IsCovered :
      (who : ℕ) (s : State N) → IsCovered s → IsCovered (mutate_reward cf who s).1
  unfolding mutate_reward take_confirmed
  mutate_reward-IsCovered who s h = elim (Option-cases (lookup (entry_of who) s.rewards)) [
    | inl e ↦ rw e h
    | inr (r, e) ↦ rw e (paying-IsCovered who r s e h)
  ]

  IsCovered-room : (at : ℕ) (s : State N) → IsCovered s → HasRoom at 0 s
  IsCovered-room at s h = (h.0, λ era. let room = h.1 era in ground (arith, room))

  claim_reward-IsCovered :
      (who at : ℕ) (s : State N) → IsCovered s → IsCovered (claim_reward cf who at s).1
  unfolding claim_reward
  claim_reward-IsCovered who at s h = elim (Result-cases (era_start cf at)) [
    | inr (inl (x, e)) ↦ rw e h
    | inr (inr e) ↦ rw e h
    | inl (era, e) ↦ rw e (
        keep_ok-holds IsCovered s _ h (
          bind_result-holds IsCovered _ (rotate_reward cf era 0 who s)
            (rotate_reward-IsCovered era 0 who s (IsCovered-room era s h))
            (λ confirmed s1 h1. elim (Bool-cases (confirmed == 0)) [
              | inl nothing_due ↦ rw nothing_due h1
              | inr due ↦ rw due (mutate_reward-IsCovered who s1 h1)
            ])))
  ]

  pub take_reward-IsCovered :
      (origin : Origin) (s : State N) → IsCovered s → IsCovered (take_reward cf origin s).1
  unfolding take_reward pending
  take_reward-IsCovered root s h = h
  take_reward-IsCovered unsigned s h = h
  take_reward-IsCovered (signed who) s h =
      bind_result-holds IsCovered _ (claim_reward cf who s.now s)
        (claim_reward-IsCovered who s.now s h) (λ reward s1 h1. h1)

  pub set_era_rewards-IsCovered :
      (origin : Origin) (era_rewards : ℕ) (s : State N)
      → IsCovered s
      → IsCovered (set_era_rewards cf origin era_rewards s).1
  unfolding set_era_rewards pending
  set_era_rewards-IsCovered root era_rewards s h = h
  set_era_rewards-IsCovered unsigned era_rewards s h = h
  set_era_rewards-IsCovered (signed who) era_rewards s h = h

  -- What is traded in an era is its room.
  add_volume-room :
      (era vol v : ℕ) (s : State N)
      → checked_add (s.volumes era) vol ≡ some v
      → IsCovered s
      → HasRoom era vol (record s { volumes = at_1 era v s.volumes })
  unfolding pending
  add_volume-room era vol v s e h =
      (h.0, λ other. let room = h.1 other in let own = h.1 era in ground (arith, room, own, e))

  pub save_trading-IsCovered :
      (trader vol at : ℕ) (s : State N)
      → IsCovered s
      → IsCovered (save_trading cf trader vol at s).1
  unfolding save_trading
  save_trading-IsCovered trader vol at s h = elim (Bool-cases (vol == 0)) [
    | inl no_volume ↦ rw no_volume h
    | inr volume ↦ rw volume (elim (Result-cases (era_start cf at)) [
      | inr (inl (x, e)) ↦ rw e h
      | inr (inr e) ↦ rw e h
      | inl (era, e) ↦ rw e (elim (Option-cases (checked_add (s.volumes era) vol)) [
        | inl e1 ↦ rw e1 h
        | inr (v, e1) ↦ rw e1 (
            keep_ok-holds IsCovered s _ h (
              bind_result-holds IsCovered _
                (rotate_reward cf era vol trader (record s { volumes = at_1 era v s.volumes }))
                (rotate_reward-IsCovered era vol trader _ (add_volume-room era vol v s e1 h))
                (λ confirmed s1 h1. h1)))
      ])
    ])
  ]
