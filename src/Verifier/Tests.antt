-- ===== src/Verifier/Tests.antt =====
-- Runs of the checks of transfers and of a cancellation.
use fusotao_protocol.Base.{ℕ, ◌≡◌, refl, List, [], ◌∷◌, ◌++◌}
use fusotao_protocol.Base.Result.{ok}
use fusotao_protocol.Verifier.Samples.{checking, u32, u128, pair, account_leaf}
use fusotao_protocol.Verifier.Leaf.{
  MerkleLeaf, get, from_le_bytes, split_value, try_get_account, try_get_symbol, try_get_orderpage,
}
use fusotao_protocol.Verifier.Cancel.{cancel_book, cancel_account, cancel_page, verify_cancel}

abbrev deposit_leaf : MerkleLeaf
deposit_leaf = account_leaf 10 1 (pair 3 2) (pair 8 2)

abbrev withdrawal_leaf : MerkleLeaf
withdrawal_leaf = account_leaf 10 1 (pair 8 2) (pair 3 2)

abbrev book_leaf : List ℕ → MerkleLeaf
book_leaf after = record { key = 1 ∷ u32 1 ++ u32 2; old_v = pair 100 30; new_v = after }

-- Account 10 cancels 6 of an ask at price 7, above the best ask.
abbrev canceled_leaves : List ℕ → List MerkleLeaf
canceled_leaves after =
    book_leaf after
    ∷ account_leaf 10 1 (pair 0 6) (pair 6 0)
    ∷ account_leaf 10 2 (pair 4 0) (pair 4 0)
    ∷ record { key = 2 ∷ u32 1 ++ u32 2; old_v = pair 6 5; new_v = pair 6 5 }
    ∷ record { key = 3 ∷ u32 1 ++ u32 2 ++ u128 7; old_v = pair 10 0; new_v = pair 4 0 }
    ∷ []

-- The two sides of the book are compared bit by bit: both may fall.
both_sides_canceled : verify_cancel checking 1 2 (canceled_leaves (pair 94 29)) 10 ≡ ok tt
unfolding verify_cancel cancel_book cancel_account cancel_page get from_le_bytes split_value
    try_get_account try_get_symbol try_get_orderpage
both_sides_canceled = refl
