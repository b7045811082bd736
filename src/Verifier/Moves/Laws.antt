-- ===== src/Verifier/Moves/Laws.antt =====
-- What the checks of transfers accept.
use fusotao_protocol.Base.{ℕ, ◌+◌, ◌≡◌, ◌↔◌, true, [], ◌∷◌, arith, inl, inr}
use fusotao_protocol.Base.Result.{ok, Result-cases}
use fusotao_protocol.Verifier.Types.{Runtime}
use fusotao_protocol.Verifier.Leaf.{
  MerkleLeaf, get, try_get_account, split_old_to_u128, split_new_to_u128,
}
use fusotao_protocol.Verifier.Moves.{verify_transfer_in, verify_transfer_out}

module _ (rt : Runtime) (checked : rt.overflow_checks ≡ true) where
  -- The leaf is of the account and the currency of the command.
  abbrev pub IsOf : ℕ → ℕ → MerkleLeaf → Type 0
  IsOf currency account leaf = try_get_account rt leaf ≡ ok (currency, account)

  -- In a build with overflow checks, a deposit with one leaf is accepted exactly when the
  -- available amount of the leaf grows by the amount, the frozen one stays, and the leaf is of the
  -- currency and the account of the command.
  pub verify_transfer_in_iff :
      (currency amount account : ℕ) (leaf : MerkleLeaf)
      → let old = split_old_to_u128 leaf in
        let new = split_new_to_u128 leaf in
        (verify_transfer_in rt currency amount account (leaf ∷ []) ≡ ok tt)
        ↔ ((new.0 ≡ old.0 + amount) × (new.1 ≡ old.1) × IsOf currency account leaf)
  unfolding verify_transfer_in get
  verify_transfer_in_iff currency amount account leaf =
      elim (Result-cases (try_get_account rt leaf)) [
        | inl (key, found) ↦ ground arith
        | inr (inl (e, failed)) ↦ ground arith
        | inr (inr failed) ↦ ground arith
      ]

  -- In a build with overflow checks, a withdrawal with one leaf is accepted exactly when the
  -- available amount of the leaf falls by the amount, the frozen one stays, and the leaf is of the
  -- currency and the account of the command.
  pub verify_transfer_out_iff :
      (currency amount account : ℕ) (leaf : MerkleLeaf)
      → let old = split_old_to_u128 leaf in
        let new = split_new_to_u128 leaf in
        (verify_transfer_out rt currency amount account (leaf ∷ []) ≡ ok tt)
        ↔ ((old.0 ≡ new.0 + amount) × (new.1 ≡ old.1) × IsOf currency account leaf)
  unfolding verify_transfer_out get
  verify_transfer_out_iff currency amount account leaf =
      elim (Result-cases (try_get_account rt leaf)) [
        | inl (key, found) ↦ ground arith
        | inr (inl (e, failed)) ↦ ground arith
        | inr (inr failed) ↦ ground arith
      ]
