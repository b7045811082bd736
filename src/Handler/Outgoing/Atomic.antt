-- ===== src/Handler/Outgoing/Atomic.antt =====
-- A transfer out of the chain that fails.
use fusotao_protocol.Base.{ℕ, inl, inr, refl, List, Bool-cases}
use fusotao_protocol.Base.Result.{Result-cases}
use fusotao_protocol.Base.Runs.{EndsOrKeeps, keep_ok-cases}
use fusotao_protocol.Token.Types.{Origin, root, unsigned, signed}
use fusotao_protocol.Bridge.Admin.{chain_whitelisted}
use fusotao_protocol.Handler.Types.{Chain, Config, is_native_resource}
use fusotao_protocol.Handler.Outgoing.{do_lock, do_burn_assets, transfer_out}

module _ {N : Type 0} (cf : Config N) where
  do_lock_atomic :
      (sender amount : ℕ) (r_id recipient : List ℕ) (dest_id : ℕ) (s : Chain N)
      → EndsOrKeeps s (do_lock cf sender amount r_id recipient dest_id s)
  unfolding do_lock
  do_lock_atomic sender amount r_id recipient dest_id s = keep_ok-cases s _

  do_burn_assets_atomic :
      (who amount : ℕ) (r_id recipient : List ℕ) (dest_id : ℕ) (s : Chain N)
      → EndsOrKeeps s (do_burn_assets cf who amount r_id recipient dest_id s)
  unfolding do_burn_assets
  do_burn_assets_atomic who amount r_id recipient dest_id s = keep_ok-cases s _

  -- A transfer out of the chain, of native or of other tokens, ends well or leaves the storage of
  -- the bridge, of the handler, of the verifier and of the tokens as it was.
  pub transfer_out_atomic :
      (origin : Origin) (amount : ℕ) (r_id recipient : List ℕ) (dest_id : ℕ) (s : Chain N)
      → EndsOrKeeps s (transfer_out cf origin amount r_id recipient dest_id s)
  unfolding transfer_out
  transfer_out_atomic root amount r_id recipient dest_id s = inr refl
  transfer_out_atomic unsigned amount r_id recipient dest_id s = inr refl
  transfer_out_atomic (signed who) amount r_id recipient dest_id s =
      elim (Bool-cases (chain_whitelisted dest_id s)) [
        | inr e ↦ rw e (inr refl)
        | inl e ↦ rw e (elim (Result-cases (is_native_resource cf r_id)) [
          | inr (inl (x, e1)) ↦ rw e1 (inr refl)
          | inr (inr e1) ↦ rw e1 (inr refl)
          | inl (native, e1) ↦ rw e1 (elim (Bool-cases native) [
            | inl e2 ↦ rw e2 (do_lock_atomic who amount r_id recipient dest_id s)
            | inr e2 ↦ rw e2 (do_burn_assets_atomic who amount r_id recipient dest_id s)
          ])
        ])
      ]
