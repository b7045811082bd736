-- ===== src/Verifier/Ask/Accepted.antt =====
-- What an accepted ask proof is made of: each part of the check, with its result.
use fusotao_protocol.Base.{ℕ, ◌/◌, ◌≡◌, sym, ap, List, [], ◌∷◌, ◌++◌, arith}
use fusotao_protocol.Base.Result.{ok, >>=-eq-ok, ok-injective}
use fusotao_protocol.Verifier.Types.{Runtime, Reserves, ClearingResult, plus}
use fusotao_protocol.Verifier.Leaf.{MerkleLeaf}
use fusotao_protocol.Verifier.AskBook.{ask_book, ask_prices}
use fusotao_protocol.Verifier.Ask.{
  Taker, Taken, Matched, no_makers, ask_taken, ask_matched, ask_taker, ask_makers, ask_fees,
  verify_ask_limit,
}

module _ (rt : Runtime) (reserves : Reserves) (dominator base quote : ℕ)
    (leaves : List MerkleLeaf) where
  pub ask_taken-parts :
      (amount maker_accounts pages : ℕ) (taken : Taken)
      → ask_taken rt reserves dominator base quote leaves amount maker_accounts pages ≡ ok taken
      → (ask_book rt base quote leaves maker_accounts pages ≡ ok (taken.ask_delta, taken.bid_delta))
        × (ask_taker rt reserves dominator base quote leaves maker_accounts ≡ ok taken.taker)
        × (taken.bid_delta ≡ taken.taker.base_delta)
  unfolding ask_taken
  ask_taken-parts amount maker_accounts pages taken h = ground arith

  pub ask_matched-parts :
      (maker_fee taker_fee maker_accounts : ℕ) (taker : Taker) (m : Matched)
      → ask_matched rt reserves dominator base quote leaves maker_fee taker_fee maker_accounts taker
        ≡ ok m
      → (ask_makers rt reserves dominator base quote leaves (maker_accounts / 2) 0 no_makers
          ≡ ok m.makers)
        × (ask_fees rt reserves dominator base quote leaves maker_fee taker_fee taker m.makers
            ≡ ok m.fees)
        × (plus rt taker.base_available' taker.base_frozen' ≡ ok m.entry.base_value)
        × (plus rt taker.quote_available' taker.quote_frozen' ≡ ok m.entry.quote_value)
        × (m.entry.matched_amount ≡ taker.base_delta)
        × (m.entry.matched_volume ≡ m.makers.quote_delta)
  unfolding ask_matched
  ask_matched-parts maker_fee taker_fee maker_accounts taker m h = ground arith

  -- An accepted proof: both sides, the prices, and the result that is read off them.
  pub record Accepted (price amount maker_fee taker_fee maker_accounts pages : ℕ)
      (cr : ClearingResult) : Type 0 where
    pub taken : Taken
    pub matched : Matched
    pub taker_side :
        ask_taken rt reserves dominator base quote leaves amount maker_accounts pages ≡ ok taken
    pub maker_side :
        ask_matched rt reserves dominator base quote leaves maker_fee taker_fee maker_accounts
          taken.taker
        ≡ ok matched
    pub priced :
        ask_prices rt base quote leaves price amount maker_accounts pages taken.ask_delta
          taken.bid_delta taken.taker.base_delta
        ≡ ok tt
    pub users : cr.users_mutation ≡ matched.makers.delta ++ matched.entry ∷ []
    pub base_charged : cr.base_fee ≡ matched.fees.0
    pub quote_charged : cr.quote_fee ≡ matched.fees.1

  pub verify_ask_limit-Accepted :
      (price amount maker_fee taker_fee maker_accounts pages : ℕ) (cr : ClearingResult)
      → verify_ask_limit rt reserves dominator base quote leaves price amount maker_fee taker_fee
          maker_accounts pages
        ≡ ok cr
      → Accepted price amount maker_fee taker_fee maker_accounts pages cr
  unfolding verify_ask_limit
  verify_ask_limit-Accepted price amount maker_fee taker_fee maker_accounts pages cr h =
      let (taken, e1, h1) =
        >>=-eq-ok (ask_taken rt reserves dominator base quote leaves amount maker_accounts pages) _
          h in
      let (matched, e2, h2) =
        >>=-eq-ok
          (ask_matched rt reserves dominator base quote leaves maker_fee taker_fee maker_accounts
            taken.taker)
          _ h1 in
      let (u, e3, h3) =
        >>=-eq-ok
          (ask_prices rt base quote leaves price amount maker_accounts pages taken.ask_delta
            taken.bid_delta taken.taker.base_delta)
          _ h2 in
      record {
        taken = taken;
        matched = matched;
        taker_side = e1;
        maker_side = e2;
        priced = e3;
        users = sym (ap (λ c. c.users_mutation) (ok-injective h3));
        base_charged = sym (ap (λ c. c.base_fee) (ok-injective h3));
        quote_charged = sym (ap (λ c. c.quote_fee) (ok-injective h3));
      }
