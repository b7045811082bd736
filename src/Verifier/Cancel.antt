-- ===== src/Verifier/Cancel.antt =====
-- `verify_cancel` of pallet-fuso-verifier/src/lib.rs.
pub mod Laws
use Prim.Native.Nat.{bit_and}
use fusotao_protocol.Base.{ℕ, Bool, not, List, ◌==◌, ◌&&◌, ◌||◌, leb, length, if◌then◌else◌}
use fusotao_protocol.Base.Result.{Result, ok, ensure, ◌>>=◌, ◌>>◌}
use fusotao_protocol.Verifier.Types.{Error, proofs_unsatisfied, Runtime, plus, minus}
use fusotao_protocol.Verifier.Leaf.{
  MerkleLeaf, get, try_get_account, try_get_symbol, try_get_orderpage, split_old_to_u128,
  split_new_to_u128, split_old_to_sum, split_new_to_sum,
}

module _ (rt : Runtime) (base quote : ℕ) (leaves : List MerkleLeaf) where
  -- What the two sides of the order book lost: something, and in no bit both.
  unfoldable pub cancel_book : Result Error (ℕ × ℕ)
  cancel_book = do
    ensure (length leaves == 5) proofs_unsatisfied
    book ← get leaves 0
    symbol ← try_get_symbol rt book
    ensure ((symbol.0 == base) && (symbol.1 == quote)) proofs_unsatisfied
    let old = split_old_to_u128 book
    let new = split_new_to_u128 book
    ask_delta ← minus rt old.0 new.0
    bid_delta ← minus rt old.1 new.1
    moved ← plus rt ask_delta bid_delta
    ensure (not (moved == 0)) proofs_unsatisfied
    ensure (bit_and ask_delta bid_delta == 0) proofs_unsatisfied
    ok (ask_delta, bid_delta)

  -- One account of the owner: what was frozen becomes available.
  unfoldable pub cancel_account : ℕ → ℕ → ℕ → Result Error (Unit {0})
  cancel_account at currency account = do
    leaf ← get leaves at
    key ← try_get_account rt leaf
    ensure (key.0 == currency) proofs_unsatisfied
    ensure (account == key.1) proofs_unsatisfied
    before ← split_old_to_sum rt leaf
    after ← split_new_to_sum rt leaf
    ensure (before == after) proofs_unsatisfied

  -- The page of the order, on either side of the best prices.
  unfoldable pub cancel_page : ℕ × ℕ → Result Error (Unit {0})
  cancel_page (ask_delta, bid_delta) = do
    best_price ← get leaves 3
    let best = split_old_to_u128 best_price
    page ← get leaves 4
    key ← try_get_orderpage rt page
    let cancel_at = key.2
    ensure ((key.0 == base) && ((key.1 == quote) && (leb best.0 cancel_at || leb cancel_at best.1)))
        proofs_unsatisfied
    before_cancel ← split_old_to_sum rt page
    after_cancel ← split_new_to_sum rt page
    canceled ← minus rt before_cancel after_cancel
    if leb best.0 cancel_at && not (best.0 == 0)
        then ensure (ask_delta == canceled) proofs_unsatisfied
        else ensure (bid_delta == canceled) proofs_unsatisfied

  unfoldable pub verify_cancel : ℕ → Result Error (Unit {0})
  verify_cancel account = do
    deltas ← cancel_book
    cancel_account 1 base account
    cancel_account 2 quote account
    cancel_page deltas
