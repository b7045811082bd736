-- ===== src/Verifier/BidBook.antt =====
-- The order book in `verify_bid_limit` of pallet-fuso-verifier/src/lib.rs: its size, the best
-- prices and the pages that a match takes.
pub mod Prices
use fusotao_protocol.Base.{
  ℕ, zero, suc, ◌+◌, ◌-◌, ◌%◌, Bool, not, Option, List, ◌==◌, ◌&&◌, ltb, leb, length, if◌then◌else◌,
}
use fusotao_protocol.Base.Words.{add_in, checked_add, checked_sub}
use fusotao_protocol.Base.Result.{Result, ok, ensure, ok_or, ◌>>=◌, ◌>>◌}
use fusotao_protocol.Verifier.Types.{Error, proofs_unsatisfied, overflow, Runtime, plus, minus}
use fusotao_protocol.Verifier.Leaf.{
  MerkleLeaf, get, last, try_get_symbol, try_get_orderpage, split_old_to_u128, split_new_to_u128,
  split_old_to_sum, split_new_to_sum,
}

module _ (rt : Runtime) (base quote : ℕ) (leaves : List MerkleLeaf) where
  -- The number of leaves, and the moves of the order book: what the asks lost and what the bids
  -- gained. The symbol of the leaf is not read.
  unfoldable pub bid_book : ℕ → ℕ → Result Error (ℕ × ℕ)
  bid_book maker_accounts pages = do
    some_leaves ← add_in 256 rt.overflow_checks 4 maker_accounts
    leaves_count ← add_in 256 rt.overflow_checks some_leaves pages
    ensure (length leaves == leaves_count) proofs_unsatisfied
    ensure (maker_accounts % 2 == 0) proofs_unsatisfied
    book ← get leaves 0
    let old = split_old_to_u128 book
    let new = split_new_to_u128 book
    ask_delta ← minus rt old.0 new.0
    bid_delta ← minus rt new.1 old.1
    ok (ask_delta, bid_delta)

  -- The pages that a match empties, from the best ask up: the price of the last and what they held.
  -- `for i in 0..pages - 1`, by the rounds that are left.
  unfoldable pub bid_page : ℕ → ℕ × ℕ → Result Error (ℕ × ℕ)
  bid_page at (pre_best, taken) = do
    page ← get leaves at
    key ← try_get_orderpage rt page
    ensure ((key.0 == base) && (key.1 == quote)) proofs_unsatisfied
    ensure (leb pre_best key.2) proofs_unsatisfied
    left ← split_new_to_sum rt page
    ensure (left == 0) proofs_unsatisfied
    held ← split_old_to_sum rt page
    taken' ← plus rt taken held
    ok (key.2, taken')

  unfoldable pub bid_pages : ℕ → ℕ → ℕ × ℕ → Result Error (ℕ × ℕ)
  unfolding bid_page
  bid_pages zero at so_far = ok so_far
  bid_pages (suc rounds) at so_far = bid_page at so_far >>= bid_pages rounds (at + 1)

  -- Partially filled: the last page is that of the rest, at the price of the order.
  unfoldable pub bid_rest_page : ℕ → ℕ → ℕ → ℕ → Result Error (Unit {0})
  bid_rest_page price amount best_bid taken = do
    page ← last leaves
    key ← try_get_orderpage rt page
    ensure ((key.0 == base) && ((key.1 == quote) && (key.2 == price))) proofs_unsatisfied
    ensure (best_bid == price) proofs_unsatisfied
    prv_is_maker ← split_old_to_sum rt page
    now_is_taker ← split_new_to_sum rt page
    part ← plus rt taken prv_is_maker
    whole ← plus rt part now_is_taker
    ensure (whole == amount) proofs_unsatisfied

  -- Filled, or canceled by a condition: the last page is that of a maker, whatever its price.
  unfoldable pub bid_maker_page : ℕ → ℕ → ℕ → ℕ → ℕ → Result Error (Unit {0})
  bid_maker_page tb_delta base_charged best_bid0 best_bid1 taken = do
    page ← last leaves
    key ← try_get_orderpage rt page
    ensure ((key.0 == base) && (key.1 == quote)) proofs_unsatisfied
    ensure (best_bid1 == best_bid0) proofs_unsatisfied
    prv_is_maker ← split_old_to_sum rt page
    now_is_maker ← split_new_to_sum rt page
    bought ← ok_or (checked_add tb_delta base_charged) overflow
    part ← ok_or (checked_add taken prv_is_maker) overflow
    matched ← ok_or (checked_sub part now_is_maker) overflow
    ensure (bought == matched) proofs_unsatisfied

  -- With trades: the price is no worse than the best ask, and the pages account for the amount.
  unfoldable pub bid_trading : ℕ → ℕ → ℕ → ℕ → ℕ → ℕ → ℕ → ℕ × ℕ → ℕ × ℕ → Result Error (Unit {0})
  bid_trading price amount maker_accounts pages bid_delta tb_delta base_charged best0 best1 = do
    ensure (ltb 0 pages && leb best0.0 price) proofs_unsatisfied
    taken ← bid_pages (pages - 1) (maker_accounts + 4) (best0.0, 0)
    if not (bid_delta == 0)
        then bid_rest_page price amount best1.1 taken.1
        else bid_maker_page tb_delta base_charged best0.1 best1.1 taken.1

  -- Without: the best ask stays, and an order that is placed joins the page at its price.
  unfoldable pub bid_placing : ℕ → ℕ → ℕ → ℕ × ℕ → ℕ × ℕ → Result Error (Unit {0})
  bid_placing price amount bid_delta best0 best1 = do
    ensure (best1.0 == best0.0) proofs_unsatisfied
    if not (bid_delta == 0)
        then (do
          page ← last leaves
          key ← try_get_orderpage rt page
          ensure ((key.0 == base) && ((key.1 == quote) && (key.2 == price))) proofs_unsatisfied
          prv_is_maker ← split_old_to_sum rt page
          now_is_maker ← split_new_to_sum rt page
          placed ← minus rt now_is_maker prv_is_maker
          ensure (amount == placed) proofs_unsatisfied)
        else ok tt

  unfoldable pub bid_prices : ℕ → ℕ → ℕ → ℕ → ℕ → ℕ → ℕ → ℕ → Result Error (Unit {0})
  bid_prices price amount maker_accounts pages ask_delta bid_delta tb_delta base_charged = do
    best_price ← get leaves (maker_accounts + 3)
    symbol ← try_get_symbol rt best_price
    ensure ((symbol.0 == base) && (symbol.1 == quote)) proofs_unsatisfied
    let best0 = split_old_to_u128 best_price
    let best1 = split_new_to_u128 best_price
    if not (ask_delta == 0)
        then bid_trading price amount maker_accounts pages bid_delta tb_delta base_charged best0
            best1
        else bid_placing price amount bid_delta best0 best1
