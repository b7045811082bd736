-- ===== src/Verifier/Commands/Root.antt =====
-- A proof leads from the root that is stored to the next one.
use fusotao_protocol.Base.{
  ℕ, ◌≡◌, refl, Bool, true, false, not, none, some, List, ◌⊎◌, inl, inr, map, if◌then◌else◌, arith,
}
use fusotao_protocol.Base.Result.{ok, Result-cases}
use fusotao_protocol.Base.Assoc.{find, find-store}
use fusotao_protocol.Verifier.Leaf.{MerkleLeaf}
use fusotao_protocol.Verifier.State.{
  State, Config, Dominator, Trade, Proof, Command, ask_limit, bid_limit, cancel, transfer_out,
  transfer_in, reject_transfer_out, reject_transfer_in,
}
use fusotao_protocol.Verifier.Reserving.Laws.{KeepsStakes}
use fusotao_protocol.Verifier.Seasons.{current_season}
use fusotao_protocol.Verifier.Commands.{run_command, step_forward, verify_and_update}
use fusotao_protocol.Verifier.Commands.Laws.{run_command-holds, step_forward-effect}

-- A rejection does not step forward.
abbrev pub is_rejection : Command → Bool
is_rejection (ask_limit price amount maker taker base quote) = false
is_rejection (bid_limit price amount maker taker base quote) = false
is_rejection (cancel base quote) = false
is_rejection (transfer_out currency amount) = false
is_rejection (transfer_in currency amount) = false
is_rejection (reject_transfer_out currency amount) = true
is_rejection reject_transfer_in = true

-- The Merkle proof holds of the leaves under a root.
abbrev pub is_proved : {N : Type 0} → Config N → Proof → List ℕ → (MerkleLeaf → List ℕ) → Bool
is_proved cf proof root value =
    elim (cf.smt_verify proof.merkle_proof root
      (map (λ leaf. (cf.hashing leaf.key, value leaf)) proof.leaves)) [
        | none ↦ false
        | some proved ↦ proved
      ]

abbrev pub next_root : List ℕ → Proof → List ℕ
next_root known proof = if is_rejection proof.cmd then known else proof.root

-- The root that is stored for a dominator.
abbrev pub StoresRoot : {N : Type 0} → ℕ → List ℕ → State N → Type 0
StoresRoot id root s = (d : Dominator) × (find id s.dominators ≡ some d) × (d.merkle_root ≡ root)

module _ {N : Type 0} (cf : Config N) (id : ℕ) where
  run_command-steps :
      (proof : Proof) (now season : ℕ) (trade : Trade) (cmd : Command) (s s' : State N)
      (done : Bool × Trade)
      → run_command cf id proof now season trade cmd s ≡ (ok done, s')
      → (done.0 ≡ not (is_rejection cmd)) × ((done.0 ≡ true) ⊎ (done.1 ≡ trade))
  unfolding run_command
  run_command-steps proof now season trade (ask_limit price amount maker taker base quote) s s' done
        h =
      grind arith
  run_command-steps proof now season trade (bid_limit price amount maker taker base quote) s s' done
        h =
      grind arith
  run_command-steps proof now season trade (cancel base quote) s s' done h = ground arith
  run_command-steps proof now season trade (transfer_out currency amount) s s' done h = grind arith
  run_command-steps proof now season trade (transfer_in currency amount) s s' done h = grind arith
  run_command-steps proof now season trade (reject_transfer_out currency amount) s s' done h =
      grind arith
  run_command-steps proof now season trade reject_transfer_in s s' done h = grind arith

  -- What an accepted proof has passed.
  verify_and_update-found :
      (known : List ℕ) (claim_at : ℕ) (proof : Proof) (s s' : State N) (trade : Trade)
      → verify_and_update cf id known claim_at proof s ≡ (ok trade, s')
      → (season : ℕ) × (is_proved cf proof known (λ leaf. leaf.old_v) ≡ true)
        × (is_proved cf proof proof.root (λ leaf. leaf.new_v) ≡ true)
        × (let r =
              run_command cf id proof s.now season
                (record { token_id = 0; root = known; amount = 0; vol = 0 })
                proof.cmd
                s in
            (done : Bool × Trade) × (r.0 ≡ ok done)
            × (((done.0 ≡ false) × (s' ≡ r.1) × (trade ≡ done.1))
                ⊎ ((done.0 ≡ true)
                    × (step_forward cf id proof s.now r.1 ≡ (ok tt, s'))
                    × (trade.root ≡ proof.root))))
  unfolding verify_and_update
  verify_and_update-found known claim_at proof s s' trade h =
      elim (Result-cases (current_season cf s.now claim_at)) [
        | inr failed ↦ absurd (let h' = h in let f = failed in ground arith)
        | inl (season, e) ↦
            let r =
              run_command cf id proof s.now season
                (record { token_id = 0; root = known; amount = 0; vol = 0 }) proof.cmd s in
            elim (Result-cases r.0) [
              | inr failed ↦ absurd (let h' = h in let f = failed in ground (arith, e))
              | inl ((true, t), e1) ↦ (
                season,
                ground (arith, h),
                ground (arith, h),
                ((true, t), e1, inr (refl, ground (arith, h, e, e1), ground (arith, h, e, e1))),
              )
              | inl ((false, t), e1) ↦ (
                season,
                ground (arith, h),
                ground (arith, h),
                ((false, t), e1, inl (refl, ground (arith, h, e, e1), ground (arith, h, e, e1))),
              )
            ]
      ]

  decided :
      (root : List ℕ) (s s' : State N)
      → KeepsStakes s s'
      → StoresRoot id root s
      → StoresRoot id root s'
  decided root s s' (dominators, stakings) (d, e, same) = (d, rw dominators e, same)

  advanced :
      (known : List ℕ) (proof : Proof) (s : State N)
      → is_rejection proof.cmd ≡ true
      → StoresRoot id known s
      → StoresRoot id (next_root known proof) s
  advanced known proof s e (d, found, same) = (d, found, ground (arith, e, same))

  forwarded :
      (known : List ℕ) (proof : Proof) (now : ℕ) (s s' : State N)
      → is_rejection proof.cmd ≡ false
      → step_forward cf id proof now s ≡ (ok tt, s')
      → StoresRoot id known s
      → StoresRoot id (next_root known proof) s'
  forwarded known proof now s s' e h (d, found, same) =
      elim (step_forward-effect cf id proof now s) [
        | inl (missing, _) ↦ absurd (ground (arith, missing, found))
        | inr (old, e1, stored, stakings) ↦
            let new : Dominator = record old {
              merkle_root = proof.root;
              sequence = (proof.event_id, now);
            } in
            (new, ground (arith, h, stored, find-store id id new s.dominators), ground (arith, e))
      ]

  module _
      (callback : (root : List ℕ) (cb user : ℕ) (s : State N)
        → StoresRoot id root s
        → StoresRoot id root (cf.dispatch cb user s)) where
    -- An accepted proof is proved under the root that is known and under its own, and leaves the
    -- next root stored.
    pub verify_and_update-root :
        (known : List ℕ) (claim_at : ℕ) (proof : Proof) (s s' : State N) (trade : Trade)
        → verify_and_update cf id known claim_at proof s ≡ (ok trade, s')
        → StoresRoot id known s
        → (is_proved cf proof known (λ leaf. leaf.old_v) ≡ true)
          × (is_proved cf proof proof.root (λ leaf. leaf.new_v) ≡ true)
          × (trade.root ≡ next_root known proof)
          × StoresRoot id (next_root known proof) s'
    verify_and_update-root known claim_at proof s s' trade h stored =
        let (season, old, new, (done, e, ends)) =
          verify_and_update-found known claim_at proof s s' trade h in
        let fresh : Trade = record { token_id = 0; root = known; amount = 0; vol = 0 } in
        let r = run_command cf id proof s.now season fresh proof.cmd s in
        let kept : StoresRoot id known r.1 =
          run_command-holds cf id (StoresRoot id known) (decided known) (callback known) proof s.now
            season fresh proof.cmd s stored in
        let (steps, same) =
          run_command-steps proof s.now season fresh proof.cmd s r.1 done (ground (arith, e)) in
        elim ends [
          | inl (stays, at_r, traded) ↦ (
            old,
            new,
            ground (arith, steps, same, stays, traded),
            rw at_r (advanced known proof r.1 (ground (arith, steps, stays)) kept),
          )
          | inr (moves, stepped, traded) ↦ (
            old,
            new,
            ground (arith, steps, moves, traded),
            forwarded known proof s.now r.1 s' (ground (arith, steps, moves)) stepped kept,
          )
        ]
