-- ===== src/Verifier/Moves.antt =====
-- The checks of transfers in and out, and of the fees.
-- Source: pallet-fuso-verifier/src/lib.rs, `verify_transfer_in` to `verify_reject_transfer_out`.
pub mod Laws
use fusotao_protocol.Base.{ℕ, Bool, List, ◌==◌, ◌&&◌, ltb, leb, length}
use fusotao_protocol.Base.Result.{Result, ok, ensure, ◌>>=◌, ◌>>◌}
use fusotao_protocol.Verifier.Types.{Error, proofs_unsatisfied, fees_too_high, Runtime, minus}
use fusotao_protocol.Verifier.Leaf.{
  MerkleLeaf, get, try_get_account, split_old_to_u128, split_new_to_u128,
}

module _ (rt : Runtime) where
  unfoldable pub verify_transfer_in : ℕ → ℕ → ℕ → List MerkleLeaf → Result Error (Unit {0})
  unfolding get
  verify_transfer_in currency amount account leaves = do
    ensure (length leaves == 1) proofs_unsatisfied
    leaf ← get leaves 0
    let old = split_old_to_u128 leaf
    let new = split_new_to_u128 leaf
    gained ← minus rt new.0 old.0
    ensure (gained == amount) proofs_unsatisfied
    ensure (new.1 == old.1) proofs_unsatisfied
    key ← try_get_account rt leaf
    ensure ((currency == key.0) && (account == key.1)) proofs_unsatisfied

  unfoldable pub check_fee : ℕ → ℕ → Result Error (Unit {0})
  check_fee taker_fee maker_fee =
      ensure (leb maker_fee rt.max_maker_fee && leb taker_fee rt.max_taker_fee) fees_too_high

  unfoldable pub verify_transfer_out : ℕ → ℕ → ℕ → List MerkleLeaf → Result Error (Unit {0})
  unfolding get
  verify_transfer_out currency amount account leaves = do
    ensure (length leaves == 1) proofs_unsatisfied
    leaf ← get leaves 0
    let old = split_old_to_u128 leaf
    let new = split_new_to_u128 leaf
    lost ← minus rt old.0 new.0
    ensure (lost == amount) proofs_unsatisfied
    ensure (new.1 == old.1) proofs_unsatisfied
    key ← try_get_account rt leaf
    ensure ((currency == key.0) && (account == key.1)) proofs_unsatisfied

  unfoldable pub verify_reject_transfer_out : ℕ → ℕ → ℕ → List MerkleLeaf → Result Error (Unit {0})
  unfolding get
  verify_reject_transfer_out currency amount account leaves = do
    ensure (length leaves == 1) proofs_unsatisfied
    leaf ← get leaves 0
    let old = split_old_to_u128 leaf
    ensure (ltb old.0 amount) proofs_unsatisfied
    key ← try_get_account rt leaf
    ensure ((currency == key.0) && (account == key.1)) proofs_unsatisfied
