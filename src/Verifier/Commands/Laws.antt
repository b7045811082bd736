-- ===== src/Verifier/Commands/Laws.antt =====
-- What an accepted proof changes besides the reserves.
use fusotao_protocol.Base.{
  ℕ, ◌≡◌, refl, Bool, true, false, none, some, List, [], ◌∷◌, ◌⊎◌, inl, inr, Option-cases, arith,
  if◌then◌else◌,
}
use fusotao_protocol.Base.Action.{pure, lift, ◌>>◌}
use fusotao_protocol.Base.Runs.{bind_result-holds, keep_ok-holds}
use fusotao_protocol.Base.Assoc.{find, store}
use fusotao_protocol.Verifier.Leaf.{MerkleLeaf}
use fusotao_protocol.Verifier.Seasons.{current_season}
use fusotao_protocol.Verifier.Types.{TokenMutation, ClearingResult}
use fusotao_protocol.Verifier.State.{
  State, Config, Dominator, Trade, Receipt, authorize, revoke, revoke_with_callback, Proof, Command,
  ask_limit, bid_limit, cancel, transfer_out, transfer_in, reject_transfer_out, reject_transfer_in,
}
use fusotao_protocol.Verifier.Reserving.Laws.{KeepsStakes, clear-Keeps, unreserve-Keeps}
use fusotao_protocol.Verifier.Seasons.Laws.{put_profit-Keeps}
use fusotao_protocol.Verifier.Commands.{
  clear_users, settle_users, require_root, settle_fees, settle_match, release, run_callback,
  accept_transfer_out, accept_transfer_in, accept_reject_transfer_out, accept_reject_transfer_in,
  run_command, step_forward, verify_and_update,
}

module _ {N : Type 0} (cf : Config N) (id : ℕ) where
  clear_users-KeepsStakes :
      (base quote now : ℕ) (ms : List TokenMutation) (s : State N)
      → KeepsStakes s (clear_users cf id base quote now ms s).1
  unfolding clear_users
  clear_users-KeepsStakes base quote now [] s = ground arith
  clear_users-KeepsStakes base quote now (m ∷ ms) s =
      grind (arith, clear-Keeps cf, clear_users-KeepsStakes base quote now ms)

  settle_fees-KeepsStakes :
      (base quote season : ℕ) (cr : ClearingResult) (s : State N)
      → KeepsStakes s (settle_fees cf id base quote season cr s).1
  unfolding settle_fees
  settle_fees-KeepsStakes base quote season cr s = grind (arith, put_profit-Keeps cf)

  settle_users-KeepsStakes :
      (base quote now : ℕ) (trade : Trade) (ms : List TokenMutation) (s : State N)
      → KeepsStakes s (settle_users cf id base quote now trade ms s).1
  unfolding settle_users
  settle_users-KeepsStakes base quote now trade ms s =
      grind (arith, clear_users-KeepsStakes base quote now ms s)

  settle_match-KeepsStakes :
      (base quote now season : ℕ) (trade : Trade) (cr : ClearingResult) (s : State N)
      → KeepsStakes s (settle_match cf id base quote now season trade cr s).1
  unfolding settle_match
  settle_match-KeepsStakes base quote now season trade cr s =
      grind (arith, settle_users-KeepsStakes, settle_fees-KeepsStakes)

  accept_transfer_in-KeepsStakes :
      (proof : Proof) (currency amount : ℕ) (s : State N)
      → KeepsStakes s (accept_transfer_in cf id proof currency amount s).1
  unfolding accept_transfer_in
  accept_transfer_in-KeepsStakes proof currency amount s = ground arith

  accept_reject_transfer_out-KeepsStakes :
      (proof : Proof) (currency amount : ℕ) (s : State N)
      → KeepsStakes s (accept_reject_transfer_out cf id proof currency amount s).1
  unfolding accept_reject_transfer_out
  accept_reject_transfer_out-KeepsStakes proof currency amount s = ground arith

  accept_reject_transfer_in-KeepsStakes :
      (proof : Proof) (s : State N) → KeepsStakes s (accept_reject_transfer_in cf id proof s).1
  unfolding accept_reject_transfer_in
  accept_reject_transfer_in-KeepsStakes proof s = ground arith

  release-KeepsStakes :
      (proof : Proof) (currency amount : ℕ) (s : State N)
      → KeepsStakes s (release cf id proof currency amount s).1
  unfolding release
  release-KeepsStakes proof currency amount s = grind (arith, unreserve-Keeps cf)

  -- A property of the storage that the stakes and the entries of the dominators decide, and that
  -- callbacks keep.
  module _ (P : State N → Type 0) (decided : (s s' : State N) → KeepsStakes s s' → P s → P s')
      (callback : (cb user : ℕ) (s : State N) → P s → P (cf.dispatch cb user s)) where
    run_callback-holds :
        (user : ℕ) (r : Receipt) (s : State N) → P s → P (run_callback cf id user r s).1
    run_callback-holds user (revoke_with_callback token value at cb) s h = callback cb user s h
    run_callback-holds user (revoke token value at) s h = h
    run_callback-holds user (authorize token value at) s h = h

    accept_transfer_out-holds :
        (proof : Proof) (currency amount : ℕ) (s : State N)
        → P s
        → P (accept_transfer_out cf id proof currency amount s).1
    unfolding accept_transfer_out
    accept_transfer_out-holds proof currency amount s h =
        bind_result-holds P (run_callback cf id proof.user_id)
          (release cf id proof currency amount s)
          (decided s _ (release-KeepsStakes proof currency amount s) h)
          (run_callback-holds proof.user_id)

    pub run_command-holds :
        (proof : Proof) (now season : ℕ) (trade : Trade) (cmd : Command) (s : State N)
        → P s
        → P (run_command cf id proof now season trade cmd s).1
    unfolding run_command
    run_command-holds proof now season trade (ask_limit price amount maker taker base quote) s h =
        decided s _ (grind (arith, settle_match-KeepsStakes)) h
    run_command-holds proof now season trade (bid_limit price amount maker taker base quote) s h =
        decided s _ (grind (arith, settle_match-KeepsStakes)) h
    run_command-holds proof now season trade (cancel base quote) s h = decided s _ (ground arith) h
    run_command-holds proof now season trade (transfer_out currency amount) s h =
        bind_result-holds P (λ _. pure (true, trade))
          (accept_transfer_out cf id proof currency amount s)
          (accept_transfer_out-holds proof currency amount s h) (λ a t k. k)
    run_command-holds proof now season trade (transfer_in currency amount) s h =
        decided s _ (grind (arith, accept_transfer_in-KeepsStakes)) h
    run_command-holds proof now season trade (reject_transfer_out currency amount) s h =
        decided s _ (grind (arith, accept_reject_transfer_out-KeepsStakes)) h
    run_command-holds proof now season trade reject_transfer_in s h =
        decided s _ (grind (arith, accept_reject_transfer_in-KeepsStakes)) h

    require_root-same :
        (proof : Proof) (to : List ℕ) (value : MerkleLeaf → List ℕ) (s : State N)
        → (require_root cf id proof to value s).1 ≡ s
    require_root-same proof to value s = ground arith

    pub verify_and_update-holds :
        ((proof : Proof) (now : ℕ) (s : State N) → P s → P (step_forward cf id proof now s).1)
        → (known_root : List ℕ) (claim_at : ℕ) (proof : Proof) (s : State N) → P s
        → P (verify_and_update cf id known_root claim_at proof s).1
    unfolding verify_and_update
    verify_and_update-holds stepped known_root claim_at proof s h = keep_ok-holds P s _ h (
        bind_result-holds P _ (require_root cf id proof known_root (λ leaf. leaf.old_v) s)
          (rw (require_root-same proof known_root (λ leaf. leaf.old_v) s) h)
          λ u t ht.
            bind_result-holds P _ (require_root cf id proof proof.root (λ leaf. leaf.new_v) t)
              (rw (require_root-same proof proof.root (λ leaf. leaf.new_v) t) ht)
              λ u1 t1 h1.
                bind_result-holds P _ (lift (current_season cf t1.now claim_at) t1) h1
                  λ season t2 h2.
                    bind_result-holds P _
                      (run_command cf id proof t1.now season
                        (record { token_id = 0; root = known_root; amount = 0; vol = 0 }) proof.cmd
                        t2)
                      (run_command-holds proof t1.now season _ proof.cmd t2 h2) (finish t1.now))
      where
        finish :
            (now : ℕ) (done : Bool × Trade) (t : State N)
            → P t
            → P
                ((if done.0
                    then (step_forward cf id proof now
                        >> pure (record done.1 { root = proof.root }))
                    else pure done.1)
                  t).1
        finish now (true, trade) t k =
            bind_result-holds P _ (step_forward cf id proof now t) (stepped proof now t k)
              λ u t1 k1. k1
        finish now (false, trade) t k = k

  pub step_forward-effect :
      (proof : Proof) (now : ℕ) (s : State N)
      → ((find id s.dominators ≡ none) × ((step_forward cf id proof now s).1 ≡ s))
        ⊎ ((d : Dominator) × (find id s.dominators ≡ some d)
            × ((step_forward cf id proof now s).1.dominators
                ≡ store id
                    (record d { merkle_root = proof.root; sequence = (proof.event_id, now) })
                    s.dominators)
            × ((step_forward cf id proof now s).1.stakings ≡ s.stakings))
  unfolding step_forward
  step_forward-effect proof now s = elim (Option-cases (find id s.dominators)) [
    | inl e ↦ inl (e, rw e refl)
    | inr (d, e) ↦ inr (d, e, ground (arith, e), ground (arith, e))
  ]
