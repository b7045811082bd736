-- ===== src/Verifier/Bid/Conservation.antt =====
-- An accepted bid proof moves tokens between the makers, the taker and the fees, and makes none.
use fusotao_protocol.Base.{
  ℕ, zero, suc, ◌+◌, ◌/◌, ◌≡◌, true, List, [], ◌∷◌, ◌++◌, get_elem?, arith, Option-cases, inl, inr,
}
use fusotao_protocol.Base.Result.{ok, >>=-eq-ok, ok-injective}
use fusotao_protocol.Verifier.Types.{Runtime, Reserves, TokenMutation, ClearingResult}
use fusotao_protocol.Verifier.Leaf.{MerkleLeaf, get, split_old_to_u128, split_new_to_u128}
use fusotao_protocol.Verifier.Sums.{
  base_before, quote_before, bases_before, quotes_before, bases_after, quotes_after, sum_of-nil,
  sum_of-snoc, old_sum,
}
use fusotao_protocol.Verifier.BidBook.{bid_book, bid_prices}
use fusotao_protocol.Verifier.Ask.{Taker, MakerSide, Makers, no_makers, Matched}
use fusotao_protocol.Verifier.Bid.{
  bid_spent, bid_taker, bid_maker_base, bid_maker_quote, bid_maker, bid_makers, bid_fees,
  bid_matched, verify_bid_limit,
}

bid_spent-figures :
    (old new : ℕ × ℕ) (d : ℕ) → bid_spent old new ≡ ok d → new.0 + new.1 + d ≡ old.0 + old.1
unfolding bid_spent
bid_spent-figures old new d h = ground arith

module _ (rt : Runtime) (reserves : Reserves) (dominator base quote : ℕ) (leaves : List MerkleLeaf)
    (checked : rt.overflow_checks ≡ true) where
  -- A round adds to the totals what it moves between the maker's leaves.
  abbrev MakersSell : ℕ → ℕ → Makers → Makers → Type 0
  MakersSell bases quotes m m' =
      (bases_after m'.delta + m'.base_delta ≡ bases_after m.delta + bases + m.base_delta)
      × (quotes_after m'.delta + m.quote_delta ≡ quotes_after m.delta + quotes + m'.quote_delta)

  bid_maker_base-move :
      (i d : ℕ) (side : MakerSide)
      → bid_maker_base rt reserves dominator base quote leaves i d ≡ ok side
      → side.value + side.total ≡ base_before leaves i + d
  unfolding bid_maker_base get
  bid_maker_base-move i d side h = ground arith

  bid_maker_quote-move :
      (i bk maker d : ℕ) (side : MakerSide)
      → bid_maker_quote rt reserves dominator base quote leaves i bk maker d ≡ ok side
      → side.value + d ≡ quote_before leaves i + side.total
  unfolding bid_maker_quote get
  bid_maker_quote-move i bk maker d side h = ground arith

  bid_maker-move :
      (i : ℕ) (m m' : Makers)
      → bid_maker rt reserves dominator base quote leaves i m ≡ ok m'
      → MakersSell (base_before leaves i) (quote_before leaves i) m m'
  unfolding bid_maker
  bid_maker-move i m m' h =
      let (b, based, h') =
        >>=-eq-ok (bid_maker_base rt reserves dominator base quote leaves i m.base_delta) _ h in
      let (q, quoted, h'') =
        >>=-eq-ok
          (bid_maker_quote rt reserves dominator base quote leaves i b.currency b.who m.quote_delta)
          _ h' in
      let entry : TokenMutation = record {
        who = b.who;
        matched_volume = q.moved;
        matched_amount = b.moved;
        base_value = b.value;
        quote_value = q.value;
      } in
      ground (
        arith,
        h'',
        bid_maker_base-move i m.base_delta b based,
        bid_maker_quote-move i b.currency b.who m.quote_delta q quoted,
        sum_of-snoc (λ x. x.base_value) m.delta entry,
        sum_of-snoc (λ x. x.quote_value) m.delta entry,
      )

  bid_makers-move :
      (rounds i : ℕ) (m m' : Makers)
      → bid_makers rt reserves dominator base quote leaves rounds i m ≡ ok m'
      → MakersSell (bases_before leaves rounds i) (quotes_before leaves rounds i) m m'
  unfolding bid_makers bases_before quotes_before
  bid_makers-move zero i m m' h = ground arith
  bid_makers-move (suc rounds) i m m' h =
      let (n, first, rest) =
        >>=-eq-ok (bid_maker rt reserves dominator base quote leaves i m) _ h in
      let a = bid_maker-move i m n first in
      let b = bid_makers-move rounds (i + 1) n m' rest in
      (omega (arith, a.0, b.0), omega (arith, a.1, b.1))

  bid_taker-base :
      (n : ℕ) (t : Taker)
      → bid_taker rt reserves dominator base quote leaves n ≡ ok t
      → t.base_available' + t.base_frozen' ≡ old_sum (get_elem? leaves (n + 1)) + t.base_delta
  unfolding bid_taker get
  bid_taker-base n t h = ground arith

  bid_taker-quote :
      (n : ℕ) (t : Taker)
      → bid_taker rt reserves dominator base quote leaves n ≡ ok t
      → t.quote_available' + t.quote_frozen' + t.quote_delta ≡ old_sum (get_elem? leaves (n + 2))
  unfolding bid_taker get
  bid_taker-quote n t h = elim (Option-cases (get_elem? leaves (n + 2))) [
    | inl missing ↦ ground arith
    | inr (leaf, found) ↦
        ground
          (arith, bid_spent-figures (split_old_to_u128 leaf) (split_new_to_u128 leaf) t.quote_delta)
  ]

  bid_fees-figures :
      (maker_fee taker_fee : ℕ) (t : Taker) (m : Makers) {fees : ℕ × ℕ}
      → bid_fees rt reserves dominator base quote leaves maker_fee taker_fee t m ≡ ok fees
      → (m.base_delta ≡ t.base_delta + fees.0) × (m.quote_delta + fees.1 ≡ t.quote_delta)
  unfolding bid_fees
  bid_fees-figures maker_fee taker_fee t m h = ground arith

  bid_matched-parts :
      (amount maker_fee taker_fee maker_accounts : ℕ) (moved : ℕ × ℕ) (t : Taker) (m : Matched)
      → bid_matched rt reserves dominator base quote leaves amount maker_fee taker_fee
          maker_accounts moved t
        ≡ ok m
      → (bid_makers rt reserves dominator base quote leaves (maker_accounts / 2) 0 no_makers
          ≡ ok m.makers)
        × (bid_fees rt reserves dominator base quote leaves maker_fee taker_fee t m.makers
            ≡ ok m.fees)
        × (t.base_available' + t.base_frozen' ≡ m.entry.base_value)
        × (t.quote_available' + t.quote_frozen' ≡ m.entry.quote_value)
  unfolding bid_matched
  bid_matched-parts amount maker_fee taker_fee maker_accounts moved t m h = ground arith

  -- The figures of the taker and of the makers together.
  matched_conserves :
      (amount maker_fee taker_fee n : ℕ) (moved : ℕ × ℕ) (t : Taker) (m : Matched)
      → bid_taker rt reserves dominator base quote leaves n ≡ ok t
      → bid_matched rt reserves dominator base quote leaves amount maker_fee taker_fee n moved t
        ≡ ok m
      → (bases_after (m.makers.delta ++ m.entry ∷ []) + m.fees.0
          ≡ bases_before leaves (n / 2) 0 + old_sum (get_elem? leaves (n + 1)))
        × (quotes_after (m.makers.delta ++ m.entry ∷ []) + m.fees.1
            ≡ quotes_before leaves (n / 2) 0 + old_sum (get_elem? leaves (n + 2)))
  matched_conserves amount maker_fee taker_fee n moved t m taken matched =
      let made = bid_matched-parts amount maker_fee taker_fee n moved t m matched in
      let moves = bid_makers-move (n / 2) 0 no_makers m.makers made.0 in
      let charged = bid_fees-figures maker_fee taker_fee t m.makers made.1 in
      (
        omega (
          arith,
          moves.0,
          charged.0,
          made.2,
          bid_taker-base n t taken,
          sum_of-nil (λ x. x.base_value),
          sum_of-snoc (λ x. x.base_value) m.makers.delta m.entry,
        ),
        omega (
          arith,
          moves.1,
          charged.1,
          made.3,
          bid_taker-quote n t taken,
          sum_of-nil (λ x. x.quote_value),
          sum_of-snoc (λ x. x.quote_value) m.makers.delta m.entry,
        ),
      )

  -- In a build with overflow checks, what an accepted bid proof leaves the users, with the fees,
  -- adds up to what the leaves of the makers and of the taker held before, in base and in quote: a
  -- proof neither makes nor loses tokens.
  pub verify_bid_limit_conserves :
      (price amount maker_fee taker_fee maker_accounts pages : ℕ) (cr : ClearingResult)
      → verify_bid_limit rt reserves dominator base quote leaves price amount maker_fee taker_fee
          maker_accounts pages
        ≡ ok cr
      → (bases_after cr.users_mutation + cr.base_fee
          ≡ bases_before leaves (maker_accounts / 2) 0
            + old_sum (get_elem? leaves (maker_accounts + 1)))
        × (quotes_after cr.users_mutation + cr.quote_fee
            ≡ quotes_before leaves (maker_accounts / 2) 0
              + old_sum (get_elem? leaves (maker_accounts + 2)))
  unfolding verify_bid_limit
  verify_bid_limit_conserves price amount maker_fee taker_fee n pages cr h =
      let (moved, e1, h1) = >>=-eq-ok (bid_book rt base quote leaves n pages) _ h in
      let (t, e2, h2) = >>=-eq-ok (bid_taker rt reserves dominator base quote leaves n) _ h1 in
      let (m, e3, h3) =
        >>=-eq-ok
          (bid_matched rt reserves dominator base quote leaves amount maker_fee taker_fee n moved t)
          _ h2 in
      let (u, e4, h4) =
        >>=-eq-ok
          (bid_prices rt base quote leaves price amount n pages moved.0 moved.1 t.base_delta
            m.fees.0)
          _ h3 in
      rw (← ok-injective h4) (matched_conserves amount maker_fee taker_fee n moved t m e2 e3)
