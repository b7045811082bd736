-- ===== src/Verifier/Bid/Tests.antt =====
-- A bid of 10 that one maker's ask fills, at one page of the book.
use fusotao_protocol.Base.{◌+◌, ◌≤◌, ◌≡◌, refl, List, [], ◌∷◌, ◌++◌, get_elem?, arith}
use fusotao_protocol.Base.Result.{ok}
use fusotao_protocol.Verifier.Types.{ClearingResult}
use fusotao_protocol.Verifier.Samples.{checking, no_reserves, u32, u128, pair, account_leaf}
use fusotao_protocol.Verifier.Leaf.{
  MerkleLeaf, get, last, from_le_bytes, split_value, try_get_account, try_get_symbol,
  try_get_orderpage, split_old_to_u128, split_new_to_u128,
}
use fusotao_protocol.Verifier.Accounts.{has_authorized_exactly_on}
use fusotao_protocol.Verifier.Sums.{old_sum, bases_before, quotes_before, bases_after, quotes_after}
use fusotao_protocol.Verifier.BidBook.{
  bid_book, bid_page, bid_pages, bid_rest_page, bid_maker_page, bid_trading, bid_placing,
  bid_prices,
}
use fusotao_protocol.Verifier.BidBook.Prices.{bid_prices_bounds}
use fusotao_protocol.Verifier.Bid.{
  bid_spent, bid_taker, bid_maker_base, bid_maker_quote, bid_maker, bid_makers, bid_fees, bid_sizes,
  bid_matched, verify_bid_limit,
}
use fusotao_protocol.Verifier.Bid.Conservation.{verify_bid_limit_conserves}

abbrev best_leaf : MerkleLeaf
best_leaf = record { key = 2 ∷ u32 1 ++ u32 2; old_v = pair 6 5; new_v = pair 6 5 }

-- Base 1 and quote 2: the book, the maker 11, the taker 10, the best prices and the page at 6.
abbrev filled_leaves : List MerkleLeaf
filled_leaves =
    record { key = 1 ∷ u32 1 ++ u32 2; old_v = pair 100 30; new_v = pair 90 30 }
    ∷ account_leaf 11 1 (pair 0 10) (pair 0 0)
    ∷ account_leaf 11 2 (pair 5 0) (pair 64 0)
    ∷ account_leaf 10 1 (pair 0 0) (pair 9 0)
    ∷ account_leaf 10 2 (pair 60 0) (pair 0 0)
    ∷ best_leaf
    ∷ record { key = 3 ∷ u32 1 ++ u32 2 ++ u128 6; old_v = pair 40 0; new_v = pair 30 0 }
    ∷ []

abbrev filled_result : ClearingResult
filled_result = record {
  users_mutation =
      record {
        who = 11;
        matched_volume = 59;
        matched_amount = 10;
        base_value = 0;
        quote_value = 64;
      }
      ∷ record {
        who = 10;
        matched_volume = 60;
        matched_amount = 10;
        base_value = 9;
        quote_value = 0;
      }
      ∷ [];
  base_fee = 1;
  quote_fee = 1;
}

bid_accepted :
    verify_bid_limit checking no_reserves 7 1 2 filled_leaves 6 10 10_000 10_000 2 1
    ≡ ok filled_result
unfolding verify_bid_limit bid_matched bid_spent bid_taker bid_makers bid_maker bid_maker_base
    bid_maker_quote bid_fees bid_sizes bid_book bid_prices bid_trading bid_placing bid_pages
    bid_page bid_rest_page bid_maker_page get last from_le_bytes try_get_account try_get_symbol
    try_get_orderpage split_value has_authorized_exactly_on
bid_accepted = refl

verify_bid_limit_conserves_example :
    (bases_after filled_result.users_mutation + 1
      ≡ bases_before filled_leaves 1 0 + old_sum (get_elem? filled_leaves 3))
    × (quotes_after filled_result.users_mutation + 1
        ≡ quotes_before filled_leaves 1 0 + old_sum (get_elem? filled_leaves 4))
verify_bid_limit_conserves_example =
    verify_bid_limit_conserves checking no_reserves 7 1 2 filled_leaves refl 6 10 10_000 10_000 2 1
      filled_result bid_accepted

bid_priced : bid_prices checking 1 2 filled_leaves 6 10 2 1 10 0 9 1 ≡ ok tt
unfolding bid_prices bid_trading bid_placing bid_pages bid_page bid_rest_page bid_maker_page get
    last from_le_bytes try_get_symbol try_get_orderpage split_value
bid_priced = refl

bid_prices_bounds_example :
    ((split_old_to_u128 best_leaf).0 ≤ 6)
    × ((split_new_to_u128 best_leaf).1 ≡ (split_old_to_u128 best_leaf).1)
unfolding get
bid_prices_bounds_example =
    bid_prices_bounds checking 1 2 filled_leaves 6 10 2 1 10 0 9 1 best_leaf refl (omega arith)
      bid_priced
