-- ===== src/Verifier/Ask/Tests.antt =====
-- An ask of 10 that one maker's bid takes whole, at one page of the book.
use fusotao_protocol.Base.{
  zero, ◌+◌, ◌≤◌, ◌≡◌, ◌≢◌, ◌⊎◌, refl, some, List, [], ◌∷◌, ◌++◌, get_elem?, arith,
}
use fusotao_protocol.Base.Result.{ok}
use fusotao_protocol.Verifier.Types.{ClearingResult}
use fusotao_protocol.Verifier.Leaf.{
  MerkleLeaf, get, last, from_le_bytes, split_value, try_get_account, try_get_symbol,
  try_get_orderpage, split_old_to_u128, split_new_to_u128,
}
use fusotao_protocol.Verifier.Samples.{checking, no_reserves, u32, u128, pair, account_leaf}
use fusotao_protocol.Verifier.Accounts.{has_authorized_exactly_on}
use fusotao_protocol.Verifier.Sums.{
  old_sum, new_sum, bases_before, quotes_before, bases_after, quotes_after,
}
use fusotao_protocol.Verifier.AskBook.{
  ask_book, ask_page, ask_pages, ask_rest_page, ask_maker_page, ask_last_page, ask_trading,
  ask_placing, ask_prices,
}
use fusotao_protocol.Verifier.AskBook.Prices.{pages_before, ask_prices_bounds, ask_prices_amount}
use fusotao_protocol.Verifier.Ask.{
  ask_taker, ask_maker_base, ask_maker_quote, ask_maker, ask_makers, ask_fees, ask_frozen,
  ask_taken, ask_matched, verify_ask_limit,
}
use fusotao_protocol.Verifier.Ask.Conservation.{verify_ask_limit_conserves}

-- Base 1 and quote 2: the book, the maker 11, the taker 10, the best prices and the page at 5.
abbrev small_leaves : List MerkleLeaf
small_leaves =
    record { key = 1 ∷ u32 1 ++ u32 2; old_v = pair 100 30; new_v = pair 100 20 }
    ∷ account_leaf 11 1 (pair 0 0) (pair 9 0)
    ∷ account_leaf 11 2 (pair 0 150) (pair 0 100)
    ∷ account_leaf 10 1 (pair 10 0) (pair 0 0)
    ∷ account_leaf 10 2 (pair 0 0) (pair 49 0)
    ∷ record { key = 2 ∷ u32 1 ++ u32 2; old_v = pair 6 5; new_v = pair 6 5 }
    ∷ record { key = 3 ∷ u32 1 ++ u32 2 ++ u128 5; old_v = pair 30 0; new_v = pair 20 0 }
    ∷ []

abbrev small_result : ClearingResult
small_result = record {
  users_mutation =
      record {
        who = 11;
        matched_volume = 50;
        matched_amount = 9;
        base_value = 9;
        quote_value = 100;
      }
      ∷ record {
        who = 10;
        matched_volume = 50;
        matched_amount = 10;
        base_value = 0;
        quote_value = 49;
      }
      ∷ [];
  base_fee = 1;
  quote_fee = 1;
}

small_accepted :
    verify_ask_limit checking no_reserves 7 1 2 small_leaves 5 10 10_000 10_000 2 1
    ≡ ok small_result
unfolding verify_ask_limit ask_taken ask_matched ask_taker ask_frozen ask_makers ask_maker
    ask_maker_base ask_maker_quote ask_fees ask_book ask_prices ask_trading ask_placing ask_pages
    ask_page ask_last_page ask_rest_page ask_maker_page get last from_le_bytes try_get_account
    try_get_symbol try_get_orderpage split_value has_authorized_exactly_on
small_accepted = refl

verify_ask_limit_conserves_example :
    (bases_after small_result.users_mutation + 1
      ≡ bases_before small_leaves 1 0 + old_sum (get_elem? small_leaves 3))
    × (quotes_after small_result.users_mutation + 1
        ≡ quotes_before small_leaves 1 0 + old_sum (get_elem? small_leaves 4))
verify_ask_limit_conserves_example =
    verify_ask_limit_conserves checking no_reserves 7 1 2 small_leaves refl 5 10 10_000 10_000 2 1
      small_result small_accepted

abbrev best_leaf : MerkleLeaf
best_leaf = record { key = 2 ∷ u32 1 ++ u32 2; old_v = pair 6 5; new_v = pair 6 5 }

abbrev page_leaf : MerkleLeaf
page_leaf = record { key = 3 ∷ u32 1 ++ u32 2 ++ u128 5; old_v = pair 30 0; new_v = pair 20 0 }

small_priced : ask_prices checking 1 2 small_leaves 5 10 2 1 0 10 10 ≡ ok tt
unfolding ask_prices ask_trading ask_placing ask_pages ask_page ask_last_page ask_rest_page
    ask_maker_page get last from_le_bytes try_get_symbol try_get_orderpage split_value
small_priced = refl

ask_prices_bounds_example :
    (5 ≤ (split_old_to_u128 best_leaf).1)
    × ((split_new_to_u128 best_leaf).1 ≤ (split_old_to_u128 best_leaf).1)
    × ((split_new_to_u128 best_leaf).0 ≡ (split_old_to_u128 best_leaf).0)
unfolding get split_value from_le_bytes
ask_prices_bounds_example =
    ask_prices_bounds checking 1 2 small_leaves 5 10 2 1 0 10 10 best_leaf refl (omega arith)
      small_priced

ask_prices_amount_example :
    let before = pages_before small_leaves 0 6 + old_sum (some page_leaf) in
    ((zero ≢ 0) × (before + new_sum (some page_leaf) ≡ 10))
    ⊎ ((zero ≡ 0) × (10 + new_sum (some page_leaf) ≡ before))
unfolding last
ask_prices_amount_example =
    ask_prices_amount checking 1 2 small_leaves refl 5 10 2 1 0 10 10 page_leaf refl (omega arith)
      small_priced
