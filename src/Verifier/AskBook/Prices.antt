-- ===== src/Verifier/AskBook/Prices.antt =====
-- What an accepted ask proof says of the best prices and of the pages that the match took.
use fusotao_protocol.Base.{
  ℕ, zero, suc, ◌+◌, ◌-◌, ◌<◌, ◌≤◌, ◌≡◌, ◌≢◌, ◌⊎◌, sym, ◌∙◌, true, not, List, ◌==◌, ◌&&◌, ltb, leb,
  some, if◌then◌else◌, get_elem?, arith,
}
use fusotao_protocol.Base.Result.{Result, ok, ensure, >>=-eq-ok, ok-injective}
use fusotao_protocol.Verifier.Types.{Error, proofs_unsatisfied, Runtime, plus}
use fusotao_protocol.Verifier.Leaf.{
  MerkleLeaf, get, last, try_get_symbol, try_get_orderpage, split_old_to_u128, split_new_to_u128,
}
use fusotao_protocol.Verifier.Sums.{old_sum, new_sum}
use fusotao_protocol.Verifier.AskBook.{
  ask_page, ask_pages, ask_rest_page, ask_maker_page, ask_last_page, ask_trading, ask_prices,
}

-- What the pages from a leaf on held before.
pub pages_before : List MerkleLeaf → ℕ → ℕ → ℕ
pages_before leaves zero at = 0
pages_before leaves (suc rounds) at =
    old_sum (get_elem? leaves at) + pages_before leaves rounds (at + 1)

module _ (rt : Runtime) (base quote : ℕ) (leaves : List MerkleLeaf) where
  ask_page-down : (at : ℕ) (p p' : ℕ × ℕ) → ask_page rt base quote leaves at p ≡ ok p' → p'.0 < p.0
  unfolding ask_page
  ask_page-down at p p' h = ground arith

  -- The pages go down from the best bid.
  ask_pages-down :
      (rounds at : ℕ) (p p' : ℕ × ℕ)
      → ask_pages rt base quote leaves rounds at p ≡ ok p'
      → p'.0 ≤ p.0
  unfolding ask_pages
  ask_pages-down zero at p p' h = ground arith
  ask_pages-down (suc rounds) at p p' h =
      let (q, first, rest) = >>=-eq-ok (ask_page rt base quote leaves at p) _ h in
      omega (arith, ask_page-down at p q first, ask_pages-down rounds (at + 1) q p' rest)

  ask_last_page-prices :
      (price amount ask_delta tb_delta : ℕ) (best0 best1 taken : ℕ × ℕ)
      → ask_last_page rt base quote leaves price amount ask_delta tb_delta best0 best1 taken ≡ ok tt
      → (best1.1 < taken.0)
        × (ask_delta ≢ 0 → best1.0 ≡ price)
        × (ask_delta ≡ 0 → best1.0 ≡ best0.0)
  unfolding ask_last_page ask_rest_page ask_maker_page
  ask_last_page-prices price amount ask_delta tb_delta best0 best1 taken h = ground arith

  opening_bounds :
      (price pages best : ℕ) {u : Unit {0}}
      → ensure (ltb 0 pages && leb price best) proofs_unsatisfied ≡ ok u
      → (0 < pages) × (price ≤ best)
  opening_bounds price pages best h = ground arith

  plus_le : (a : ℕ) {c : ℕ} → plus rt a 1 ≡ ok c → c ≤ a + 1
  plus_le a h = ground arith

  ask_trading-prices :
      (price amount n pages ask_delta tb_delta : ℕ) (best0 best1 : ℕ × ℕ)
      → ask_trading rt base quote leaves price amount n pages ask_delta tb_delta best0 best1 ≡ ok tt
      → (0 < pages)
        × (price ≤ best0.1)
        × (best1.1 ≤ best0.1)
        × (ask_delta ≢ 0 → best1.0 ≡ price)
        × (ask_delta ≡ 0 → best1.0 ≡ best0.0)
  unfolding ask_trading
  ask_trading-prices price amount n pages ask_delta tb_delta best0 best1 h =
      let (u, worth_it, h1) =
        >>=-eq-ok (ensure (ltb 0 pages && leb price best0.1) proofs_unsatisfied) _ h in
      let (pre_best, start, h2) = >>=-eq-ok (plus rt best0.1 1) _ h1 in
      let (taken, downward, last_one) =
        >>=-eq-ok (ask_pages rt base quote leaves (pages - 1) (n + 4) (pre_best, 0)) _ h2 in
      let down = ask_pages-down (pages - 1) (n + 4) (pre_best, 0) taken downward in
      let final = ask_last_page-prices price amount ask_delta tb_delta best0 best1 taken last_one in
      let opening = opening_bounds price pages best0.1 worth_it in
      (opening.0, opening.1, omega (arith, plus_le best0.1 start, down, final.0), final.1, final.2)

  -- An accepted ask that trades is priced at the best bid or below, and the best bid falls or
  -- stays; the best ask becomes its price where a rest is placed, and stays where none is.
  pub ask_prices_bounds :
      (price amount n pages ask_delta bid_delta tb_delta : ℕ) (best : MerkleLeaf)
      → get leaves (n + 3) ≡ ok best
      → bid_delta ≢ 0
      → ask_prices rt base quote leaves price amount n pages ask_delta bid_delta tb_delta ≡ ok tt
      → let old = split_old_to_u128 best in
        let new = split_new_to_u128 best in
        (price ≤ old.1) × (new.1 ≤ old.1) × (new.0 ≡ (if ask_delta == 0 then old.0 else price))
  unfolding ask_prices
  ask_prices_bounds price amount n pages ask_delta bid_delta tb_delta best found trades h =
      let old = split_old_to_u128 best in
      let new = split_new_to_u128 best in
      ground (arith, ask_trading-prices price amount n pages ask_delta tb_delta old new)

module _ (rt : Runtime) (base quote : ℕ) (leaves : List MerkleLeaf)
    (checked : rt.overflow_checks ≡ true) where
  ask_page-taken :
      (at : ℕ) (p p' : ℕ × ℕ)
      → ask_page rt base quote leaves at p ≡ ok p'
      → p'.1 ≡ p.1 + old_sum (get_elem? leaves at)
  unfolding ask_page get
  ask_page-taken at p p' h = ground arith

  ask_pages-taken :
      (rounds at : ℕ) (p p' : ℕ × ℕ)
      → ask_pages rt base quote leaves rounds at p ≡ ok p'
      → p'.1 ≡ p.1 + pages_before leaves rounds at
  unfolding ask_pages pages_before
  ask_pages-taken zero at p p' h = ground arith
  ask_pages-taken (suc rounds) at p p' h =
      let (q, first, rest) = >>=-eq-ok (ask_page rt base quote leaves at p) _ h in
      omega (arith, ask_page-taken at p q first, ask_pages-taken rounds (at + 1) q p' rest)

  -- What the last page contributes.
  abbrev AmountAdds : ℕ → ℕ → ℕ → ℕ → MerkleLeaf → Type 0
  AmountAdds amount ask_delta tb_delta emptied page =
      (ask_delta ≢ 0 → emptied + old_sum (some page) + new_sum (some page) ≡ amount)
      × (ask_delta ≡ 0 → tb_delta + new_sum (some page) ≡ emptied + old_sum (some page))

  ask_rest_page-amount :
      (price amount best_ask at_price taken : ℕ) (page : MerkleLeaf)
      → ask_rest_page rt base quote leaves price amount best_ask at_price taken page ≡ ok tt
      → taken + old_sum (some page) + new_sum (some page) ≡ amount
  unfolding ask_rest_page
  ask_rest_page-amount price amount best_ask at_price taken page h = ground arith

  ask_maker_page-amount :
      (tb_delta best_ask0 best_ask1 taken : ℕ) (page : MerkleLeaf)
      → ask_maker_page rt base quote leaves tb_delta best_ask0 best_ask1 taken page ≡ ok tt
      → tb_delta + new_sum (some page) ≡ taken + old_sum (some page)
  unfolding ask_maker_page
  ask_maker_page-amount tb_delta best_ask0 best_ask1 taken page h = ground arith

  ask_last_page-amount :
      (price amount ask_delta tb_delta : ℕ) (best0 best1 taken : ℕ × ℕ) (page : MerkleLeaf)
      → last leaves ≡ ok page
      → ask_last_page rt base quote leaves price amount ask_delta tb_delta best0 best1 taken ≡ ok tt
      → AmountAdds amount ask_delta tb_delta taken.1 page
  unfolding ask_last_page
  ask_last_page-amount price amount ask_delta tb_delta best0 best1 taken page final h =
      let (page', found, h1) = >>=-eq-ok (last leaves) _ h in
      let (key, keyed, h2) = >>=-eq-ok (try_get_orderpage rt page') _ h1 in
      let (u, right_book, h3) =
        >>=-eq-ok (ensure ((key.0 == base) && (key.1 == quote)) proofs_unsatisfied) _ h2 in
      let (v, in_order, h4) =
        >>=-eq-ok (ensure (ltb key.2 taken.0 && leb best1.1 key.2) proofs_unsatisfied) _ h3 in
      let same : page' ≡ page = ok-injective (sym found ∙ final) in
      let of_rest = ask_rest_page-amount price amount best1.0 key.2 taken.1 page in
      let of_maker = ask_maker_page-amount tb_delta best0.0 best1.0 taken.1 page in
      ground (arith, h4, same, of_rest, of_maker)

  ask_trading-amount :
      (price amount n pages ask_delta tb_delta : ℕ) (best0 best1 : ℕ × ℕ) (page : MerkleLeaf)
      → last leaves ≡ ok page
      → ask_trading rt base quote leaves price amount n pages ask_delta tb_delta best0 best1 ≡ ok tt
      → AmountAdds amount ask_delta tb_delta (pages_before leaves (pages - 1) (n + 4)) page
  unfolding ask_trading
  ask_trading-amount price amount n pages ask_delta tb_delta best0 best1 page final h =
      let (u, worth_it, h1) =
        >>=-eq-ok (ensure (ltb 0 pages && leb price best0.1) proofs_unsatisfied) _ h in
      let (pre_best, start, h2) = >>=-eq-ok (plus rt best0.1 1) _ h1 in
      let (taken, downward, last_one) =
        >>=-eq-ok (ask_pages rt base quote leaves (pages - 1) (n + 4) (pre_best, 0)) _ h2 in
      let emptied = ask_pages-taken (pages - 1) (n + 4) (pre_best, 0) taken downward in
      let adds =
        ask_last_page-amount price amount ask_delta tb_delta best0 best1 taken page final
          last_one in
      (
        (λ rest. omega (arith, emptied, adds.0 rest)),
        (λ none_left. omega (arith, emptied, adds.1 none_left)),
      )

  -- In a build with overflow checks, an accepted ask that trades accounts for its amount page by
  -- page: either a rest is placed, and what the emptied pages and the last page held with what the
  -- last page now holds is the amount of the order, or none is, and what the pages held is the
  -- traded base with what the last page keeps.
  pub ask_prices_amount :
      (price amount n pages ask_delta bid_delta tb_delta : ℕ) (page : MerkleLeaf)
      → last leaves ≡ ok page
      → bid_delta ≢ 0
      → ask_prices rt base quote leaves price amount n pages ask_delta bid_delta tb_delta ≡ ok tt
      → let emptied = pages_before leaves (pages - 1) (n + 4) in
        let before = emptied + old_sum (some page) in
        ((ask_delta ≢ 0) × (before + new_sum (some page) ≡ amount))
        ⊎ ((ask_delta ≡ 0) × (tb_delta + new_sum (some page) ≡ before))
  unfolding ask_prices
  ask_prices_amount price amount n pages ask_delta bid_delta tb_delta page final trades h =
      let (best, e1, h1) = >>=-eq-ok (get leaves (n + 3)) _ h in
      let (symbol, e2, h2) = >>=-eq-ok (try_get_symbol rt best) _ h1 in
      let (u, e3, h3) =
        >>=-eq-ok (ensure ((symbol.0 == base) && (symbol.1 == quote)) proofs_unsatisfied) _ h2 in
      let old = split_old_to_u128 best in
      let new = split_new_to_u128 best in
      let traded : ask_trading rt base quote leaves price amount n pages ask_delta tb_delta old new
          ≡ ok tt =
        chosen _ _ bid_delta trades h3 in
      ground (
        arith,
        ask_trading-amount price amount n pages ask_delta tb_delta old new page final traded,
      )
    where
      chosen :
          (x y : Result Error (Unit {0})) (d : ℕ)
          → d ≢ 0
          → (if not (d == 0) then x else y) ≡ ok tt
          → x ≡ ok tt
      chosen x y d pos e = ground arith
