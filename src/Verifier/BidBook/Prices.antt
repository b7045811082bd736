-- ===== src/Verifier/BidBook/Prices.antt =====
-- What an accepted bid proof says of the best prices and of the pages that the match took.
use fusotao_protocol.Base.{
  ℕ, ◌+◌, ◌-◌, ◌≤◌, ◌≡◌, ◌≢◌, not, List, ◌==◌, ◌&&◌, ltb, leb, if◌then◌else◌, arith,
}
use fusotao_protocol.Base.Result.{ok, ensure, >>=-eq-ok}
use fusotao_protocol.Verifier.Types.{proofs_unsatisfied, Runtime}
use fusotao_protocol.Verifier.Leaf.{MerkleLeaf, get, split_old_to_u128, split_new_to_u128}
use fusotao_protocol.Verifier.BidBook.{
  bid_pages, bid_rest_page, bid_maker_page, bid_trading, bid_prices,
}

module _ (rt : Runtime) (base quote : ℕ) (leaves : List MerkleLeaf) where
  bid_last-prices :
      (price amount bid_delta tb_delta base_charged best0 best1 taken : ℕ)
      → (if not (bid_delta == 0)
          then bid_rest_page rt base quote leaves price amount best1 taken
          else bid_maker_page rt base quote leaves tb_delta base_charged best0 best1 taken)
        ≡ ok tt
      → best1 ≡ (if bid_delta == 0 then best0 else price)
  unfolding bid_rest_page bid_maker_page
  bid_last-prices price amount bid_delta tb_delta base_charged best0 best1 taken h = ground arith

  bid_trading-prices :
      (price amount n pages bid_delta tb_delta base_charged : ℕ) (best0 best1 : ℕ × ℕ)
      → bid_trading rt base quote leaves price amount n pages bid_delta tb_delta base_charged best0
          best1
        ≡ ok tt
      → (best0.0 ≤ price) × (best1.1 ≡ (if bid_delta == 0 then best0.1 else price))
  unfolding bid_trading
  bid_trading-prices price amount n pages bid_delta tb_delta base_charged best0 best1 h =
      let (u, worth_it, h1) =
        >>=-eq-ok (ensure (ltb 0 pages && leb best0.0 price) proofs_unsatisfied) _ h in
      let (taken, upward, last_one) =
        >>=-eq-ok (bid_pages rt base quote leaves (pages - 1) (n + 4) (best0.0, 0)) _ h1 in
      (
        opening price pages best0.0 worth_it,
        bid_last-prices price amount bid_delta tb_delta base_charged best0.1 best1.1 taken.1
            last_one,
      )
    where
      opening :
          (price pages best : ℕ) {u : Unit {0}}
          → ensure (ltb 0 pages && leb best price) proofs_unsatisfied ≡ ok u
          → best ≤ price
      opening price pages best h = ground arith

  -- An accepted bid that trades is priced at the best ask or above; the best bid becomes its price
  -- where a rest is placed, and stays where none is.
  pub bid_prices_bounds :
      (price amount n pages ask_delta bid_delta tb_delta base_charged : ℕ) (best : MerkleLeaf)
      → get leaves (n + 3) ≡ ok best
      → ask_delta ≢ 0
      → bid_prices rt base quote leaves price amount n pages ask_delta bid_delta tb_delta
          base_charged
        ≡ ok tt
      → let old = split_old_to_u128 best in
        let new = split_new_to_u128 best in
        (old.0 ≤ price) × (new.1 ≡ (if bid_delta == 0 then old.1 else price))
  unfolding bid_prices
  bid_prices_bounds price amount n pages ask_delta bid_delta tb_delta base_charged best found trades
        h =
      let old = split_old_to_u128 best in
      let new = split_new_to_u128 best in
      ground
        (arith, bid_trading-prices price amount n pages bid_delta tb_delta base_charged old new)
