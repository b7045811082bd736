-- ===== src/Verifier/AskBook.antt =====
-- The order book in `verify_ask_limit` of pallet-fuso-verifier/src/lib.rs: its size, the best
-- prices and the pages that a match takes.
pub mod Prices
use fusotao_protocol.Base.{
  ℕ, zero, suc, ◌+◌, ◌-◌, ◌*◌, ◌/◌, ◌%◌, Bool, true, false, not, Option, none, some, List, [], ◌∷◌,
  ◌++◌, ◌==◌, ◌&&◌, ltb, leb, length, if◌then◌else◌,
}
use fusotao_protocol.Base.Words.{add_in, checked_add, checked_sub}
use fusotao_protocol.Base.Result.{Result, ok, err, panicked, ensure, ok_or, ◌>>=◌, ◌>>◌}
use fusotao_protocol.Verifier.Types.{
  Error, proofs_unsatisfied, overflow, Runtime, Reserves, TokenMutation, ClearingResult, plus,
  minus,
}
use fusotao_protocol.Verifier.Leaf.{
  MerkleLeaf, get, last, try_get_account, try_get_symbol, try_get_orderpage, split_old_to_u128,
  split_new_to_u128, split_old_to_sum, split_new_to_sum,
}
use fusotao_protocol.Verifier.Accounts.{has_authorized_exactly_on}

module _ (rt : Runtime) (base quote : ℕ) (leaves : List MerkleLeaf) where
  -- The number of leaves, and the moves of the order book: what the asks gained and what the bids
  -- lost.
  unfoldable pub ask_book : ℕ → ℕ → Result Error (ℕ × ℕ)
  ask_book maker_accounts pages = do
    some_leaves ← add_in 256 rt.overflow_checks 4 maker_accounts
    leaves_count ← add_in 256 rt.overflow_checks some_leaves pages
    ensure (length leaves == leaves_count) proofs_unsatisfied
    ensure (maker_accounts % 2 == 0) proofs_unsatisfied
    book ← get leaves 0
    symbol ← try_get_symbol rt book
    ensure ((symbol.0 == base) && (symbol.1 == quote)) proofs_unsatisfied
    let old = split_old_to_u128 book
    let new = split_new_to_u128 book
    ask_delta ← minus rt new.0 old.0
    bid_delta ← minus rt old.1 new.1
    ok (ask_delta, bid_delta)

  -- The pages that a match empties, from the best bid down: the price of the last and what they
  -- held. `for i in 0..pages - 1`, by the rounds that are left.
  unfoldable pub ask_page : ℕ → ℕ × ℕ → Result Error (ℕ × ℕ)
  ask_page at (pre_best, taken) = do
    page ← get leaves at
    key ← try_get_orderpage rt page
    ensure ((key.0 == base) && (key.1 == quote)) proofs_unsatisfied
    ensure (ltb key.2 pre_best) proofs_unsatisfied
    left ← split_new_to_sum rt page
    ensure (left == 0) proofs_unsatisfied
    held ← split_old_to_sum rt page
    taken' ← plus rt taken held
    ok (key.2, taken')

  unfoldable pub ask_pages : ℕ → ℕ → ℕ × ℕ → Result Error (ℕ × ℕ)
  unfolding ask_page
  ask_pages zero at so_far = ok so_far
  ask_pages (suc rounds) at so_far = ask_page at so_far >>= ask_pages rounds (at + 1)

  -- Partially filled: the last page is that of the rest.
  unfoldable pub ask_rest_page : ℕ → ℕ → ℕ → ℕ → ℕ → MerkleLeaf → Result Error (Unit {0})
  ask_rest_page price amount best_ask at_price taken page = do
    ensure ((best_ask == price) && (at_price == price)) proofs_unsatisfied
    prv_is_maker ← split_old_to_sum rt page
    now_is_taker ← split_new_to_sum rt page
    part ← plus rt taken prv_is_maker
    whole ← plus rt part now_is_taker
    ensure (whole == amount) proofs_unsatisfied

  -- Filled, or canceled by a condition: the last page is that of a maker.
  unfoldable pub ask_maker_page : ℕ → ℕ → ℕ → ℕ → MerkleLeaf → Result Error (Unit {0})
  ask_maker_page tb_delta best_ask0 best_ask1 taken page = do
    ensure (best_ask1 == best_ask0) proofs_unsatisfied
    prv_is_maker ← split_old_to_sum rt page
    now_is_maker ← split_new_to_sum rt page
    part ← plus rt taken prv_is_maker
    matched ← minus rt part now_is_maker
    ensure (tb_delta == matched) proofs_unsatisfied

  -- The last page of a match: it holds the rest of the taker's order, or of a maker's.
  unfoldable pub ask_last_page : ℕ → ℕ → ℕ → ℕ → ℕ × ℕ → ℕ × ℕ → ℕ × ℕ → Result Error (Unit {0})
  ask_last_page price amount ask_delta tb_delta best0 best1 (pre_best, taken) = do
    page ← last leaves
    key ← try_get_orderpage rt page
    ensure ((key.0 == base) && (key.1 == quote)) proofs_unsatisfied
    ensure (ltb key.2 pre_best && leb best1.1 key.2) proofs_unsatisfied
    if not (ask_delta == 0)
        then ask_rest_page price amount best1.0 key.2 taken page
        else ask_maker_page tb_delta best0.0 best1.0 taken page

  -- With trades: the price is no better than the best bid, and the pages account for the amount.
  unfoldable pub ask_trading : ℕ → ℕ → ℕ → ℕ → ℕ → ℕ → ℕ × ℕ → ℕ × ℕ → Result Error (Unit {0})
  ask_trading price amount maker_accounts pages ask_delta tb_delta best0 best1 = do
    ensure (ltb 0 pages && leb price best0.1) proofs_unsatisfied
    pre_best ← plus rt best0.1 1
    taken ← ask_pages (pages - 1) (maker_accounts + 4) (pre_best, 0)
    ask_last_page price amount ask_delta tb_delta best0 best1 taken

  -- Without: the best bid stays, and an order that is placed joins a page above it.
  unfoldable pub ask_placing : ℕ → ℕ → ℕ × ℕ → ℕ × ℕ → Result Error (Unit {0})
  ask_placing amount ask_delta best0 best1 = do
    ensure (best1.1 == best0.1) proofs_unsatisfied
    if not (ask_delta == 0)
        then (do
          page ← last leaves
          key ← try_get_orderpage rt page
          ensure ((key.0 == base) && ((key.1 == quote) && ltb best1.1 key.2)) proofs_unsatisfied
          prv_is_maker ← split_old_to_sum rt page
          now_is_maker ← split_new_to_sum rt page
          placed ← minus rt now_is_maker prv_is_maker
          ensure (amount == placed) proofs_unsatisfied)
        else ok tt

  unfoldable pub ask_prices : ℕ → ℕ → ℕ → ℕ → ℕ → ℕ → ℕ → Result Error (Unit {0})
  ask_prices price amount maker_accounts pages ask_delta bid_delta tb_delta = do
    best_price ← get leaves (maker_accounts + 3)
    symbol ← try_get_symbol rt best_price
    ensure ((symbol.0 == base) && (symbol.1 == quote)) proofs_unsatisfied
    let best0 = split_old_to_u128 best_price
    let best1 = split_new_to_u128 best_price
    if not (bid_delta == 0)
        then ask_trading price amount maker_accounts pages ask_delta tb_delta best0 best1
        else ask_placing amount ask_delta best0 best1
