-- ===== src/Verifier/Ask/Conservation.antt =====
-- An accepted ask proof moves tokens between the maker, the taker and the fees, and makes none.
use fusotao_protocol.Base.{ℕ, zero, suc, ◌+◌, ◌/◌, ◌≡◌, true, List, get_elem?, arith}
use fusotao_protocol.Base.Result.{ok, >>=-eq-ok}
use fusotao_protocol.Verifier.Types.{Runtime, Reserves, TokenMutation, ClearingResult, plus}
use fusotao_protocol.Verifier.Leaf.{MerkleLeaf, get}
use fusotao_protocol.Verifier.Sums.{
  base_before, quote_before, bases_before, quotes_before, bases_after, quotes_after, sum_of-nil,
  sum_of-snoc, old_sum,
}
use fusotao_protocol.Verifier.Ask.Accepted.{
  Accepted, verify_ask_limit-Accepted, ask_taken-parts, ask_matched-parts,
}
use fusotao_protocol.Verifier.Ask.{
  no_makers, Taker, MakerSide, Makers, ask_taker, ask_maker_base, ask_maker_quote, ask_maker,
  ask_makers, ask_fees, verify_ask_limit,
}

module _ (rt : Runtime) (reserves : Reserves) (dominator base quote : ℕ) (leaves : List MerkleLeaf)
    (checked : rt.overflow_checks ≡ true) where
  -- A round adds to the totals what it takes from the maker's leaves.
  abbrev MakersMove : ℕ → ℕ → Makers → Makers → Type 0
  MakersMove bases quotes m m' =
      (bases_after m'.delta + m.base_delta ≡ bases_after m.delta + bases + m'.base_delta)
      × (quotes_after m'.delta + m'.quote_delta ≡ quotes_after m.delta + quotes + m.quote_delta)

  plus_exact : (a b : ℕ) {c : ℕ} → plus rt a b ≡ ok c → a + b ≡ c
  plus_exact a b h = ground arith

  ask_maker_base-move :
      (i d : ℕ) (side : MakerSide)
      → ask_maker_base rt reserves dominator base quote leaves i d ≡ ok side
      → side.value + d ≡ base_before leaves i + side.total
  unfolding ask_maker_base get
  ask_maker_base-move i d side h = ground arith

  ask_maker_quote-move :
      (i bk d : ℕ) (side : MakerSide)
      → ask_maker_quote rt reserves dominator base quote leaves i bk d ≡ ok side
      → side.value + side.total ≡ quote_before leaves i + d
  unfolding ask_maker_quote get
  ask_maker_quote-move i bk d side h = ground arith

  ask_maker-move :
      (i : ℕ) (m m' : Makers)
      → ask_maker rt reserves dominator base quote leaves i m ≡ ok m'
      → MakersMove (base_before leaves i) (quote_before leaves i) m m'
  unfolding ask_maker
  ask_maker-move i m m' h =
      let (b, based, h') =
        >>=-eq-ok (ask_maker_base rt reserves dominator base quote leaves i m.base_delta) _ h in
      let (q, quoted, h'') =
        >>=-eq-ok
          (ask_maker_quote rt reserves dominator base quote leaves i b.currency m.quote_delta) _
          h' in
      let entry : TokenMutation = record {
        who = q.who;
        matched_volume = q.moved;
        matched_amount = b.moved;
        base_value = b.value;
        quote_value = q.value;
      } in
      ground (
        arith,
        h'',
        ask_maker_base-move i m.base_delta b based,
        ask_maker_quote-move i b.currency m.quote_delta q quoted,
        sum_of-snoc (λ x. x.base_value) m.delta entry,
        sum_of-snoc (λ x. x.quote_value) m.delta entry,
      )

  ask_makers-move :
      (rounds i : ℕ) (m m' : Makers)
      → ask_makers rt reserves dominator base quote leaves rounds i m ≡ ok m'
      → MakersMove (bases_before leaves rounds i) (quotes_before leaves rounds i) m m'
  unfolding ask_makers bases_before quotes_before
  ask_makers-move zero i m m' h = ground arith
  ask_makers-move (suc rounds) i m m' h =
      let (n, first, rest) =
        >>=-eq-ok (ask_maker rt reserves dominator base quote leaves i m) _ h in
      let a = ask_maker-move i m n first in
      let b = ask_makers-move rounds (i + 1) n m' rest in
      (omega (arith, a.0, b.0), omega (arith, a.1, b.1))

  ask_taker-base :
      (n : ℕ) (t : Taker)
      → ask_taker rt reserves dominator base quote leaves n ≡ ok t
      → t.base_available' + t.base_frozen' + t.base_delta ≡ old_sum (get_elem? leaves (n + 1))
  unfolding ask_taker get
  ask_taker-base n t h = ground arith

  ask_taker-quote :
      (n : ℕ) (t : Taker)
      → ask_taker rt reserves dominator base quote leaves n ≡ ok t
      → t.quote_available' + t.quote_frozen' ≡ old_sum (get_elem? leaves (n + 2)) + t.quote_delta
  unfolding ask_taker get
  ask_taker-quote n t h = ground arith

  ask_fees-figures :
      (maker_fee taker_fee : ℕ) (t : Taker) (m : Makers) {fees : ℕ × ℕ}
      → ask_fees rt reserves dominator base quote leaves maker_fee taker_fee t m ≡ ok fees
      → (m.base_delta + fees.0 ≡ t.base_delta) × (m.quote_delta ≡ t.quote_delta + fees.1)
  unfolding ask_fees
  ask_fees-figures maker_fee taker_fee t m h = ground arith

  Accepted-conserves :
      (price amount maker_fee taker_fee n pages : ℕ) (cr : ClearingResult)
      → Accepted rt reserves dominator base quote leaves price amount maker_fee taker_fee n pages cr
      → (bases_after cr.users_mutation + cr.base_fee
          ≡ bases_before leaves (n / 2) 0 + old_sum (get_elem? leaves (n + 1)))
        × (quotes_after cr.users_mutation + cr.quote_fee
            ≡ quotes_before leaves (n / 2) 0 + old_sum (get_elem? leaves (n + 2)))
  Accepted-conserves price amount maker_fee taker_fee n pages cr a =
      let t = a.taken.taker in
      let m = a.matched in
      let took =
        ask_taken-parts rt reserves dominator base quote leaves amount n pages a.taken
          a.taker_side in
      let made =
        ask_matched-parts rt reserves dominator base quote leaves maker_fee taker_fee n t m
          a.maker_side in
      let moves = ask_makers-move (n / 2) 0 no_makers m.makers made.0 in
      let charged = ask_fees-figures maker_fee taker_fee t m.makers made.1 in
      let base_left = plus_exact t.base_available' t.base_frozen' made.2 in
      let quote_left = plus_exact t.quote_available' t.quote_frozen' made.3 in
      let nothing = sum_of-nil in
      rw a.users (
        omega (
          arith,
          a.base_charged,
          moves.0,
          charged.0,
          base_left,
          ask_taker-base n t took.1,
          nothing (λ x. x.base_value),
          sum_of-snoc (λ x. x.base_value) m.makers.delta m.entry,
        ),
        omega (
          arith,
          a.quote_charged,
          moves.1,
          charged.1,
          quote_left,
          ask_taker-quote n t took.1,
          nothing (λ x. x.quote_value),
          sum_of-snoc (λ x. x.quote_value) m.makers.delta m.entry,
        ),
      )

  -- In a build with overflow checks, what an accepted ask proof leaves the users, with the fees,
  -- adds up to what the leaves of the makers and of the taker held before, in base and in quote: a
  -- proof neither makes nor loses tokens.
  pub verify_ask_limit_conserves :
      (price amount maker_fee taker_fee maker_accounts pages : ℕ) (cr : ClearingResult)
      → verify_ask_limit rt reserves dominator base quote leaves price amount maker_fee taker_fee
          maker_accounts pages
        ≡ ok cr
      → (bases_after cr.users_mutation + cr.base_fee
          ≡ bases_before leaves (maker_accounts / 2) 0
            + old_sum (get_elem? leaves (maker_accounts + 1)))
        × (quotes_after cr.users_mutation + cr.quote_fee
            ≡ quotes_before leaves (maker_accounts / 2) 0
              + old_sum (get_elem? leaves (maker_accounts + 2)))
  verify_ask_limit_conserves price amount maker_fee taker_fee n pages cr h =
      Accepted-conserves price amount maker_fee taker_fee n pages cr (
        verify_ask_limit-Accepted rt reserves dominator base quote leaves price amount maker_fee
          taker_fee n pages cr h)
