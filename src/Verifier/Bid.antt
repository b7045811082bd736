-- ===== src/Verifier/Bid.antt =====
-- `verify_bid_limit` of pallet-fuso-verifier/src/lib.rs, in the parts that its comments name.
pub mod Conservation
mod Tests
use fusotao_protocol.Base.{
  ℕ, zero, suc, ◌+◌, ◌*◌, ◌/◌, Bool, not, Option, List, [], ◌∷◌, ◌++◌, ◌==◌, ◌&&◌, if◌then◌else◌,
}
use fusotao_protocol.Base.Words.{checked_add, checked_sub}
use fusotao_protocol.Base.Result.{Result, ok, ensure, ok_or, ◌>>=◌, ◌>>◌}
use fusotao_protocol.Verifier.Types.{
  Error, proofs_unsatisfied, overflow, Runtime, Reserves, TokenMutation, ClearingResult, plus,
  minus,
}
use fusotao_protocol.Verifier.Leaf.{
  MerkleLeaf, get, try_get_account, split_old_to_u128, split_new_to_u128, split_old_to_sum,
  split_new_to_sum,
}
use fusotao_protocol.Verifier.BidBook.{bid_book, bid_prices}
use fusotao_protocol.Verifier.Accounts.{has_authorized_exactly_on}
use fusotao_protocol.Verifier.Ask.{Taker, MakerSide, Makers, no_makers, Matched}

-- By how much a sum fell, with every step checked.
pub bid_spent : ℕ × ℕ → ℕ × ℕ → Result Error ℕ
bid_spent old new = do
  quote_old ← ok_or (checked_add old.0 old.1) overflow
  quote_new ← ok_or (checked_add new.0 new.1) overflow
  ok_or (checked_sub quote_old quote_new) overflow

module _ (rt : Runtime) (reserves : Reserves) (dominator base quote : ℕ)
    (leaves : List MerkleLeaf) where
  pub bid_taker : ℕ → Result Error Taker
  unfolding has_authorized_exactly_on
  bid_taker maker_accounts = do
    taker_base ← get leaves (maker_accounts + 1)
    let b0 = split_old_to_u128 taker_base
    let b1 = split_new_to_u128 taker_base
    base_new ← plus rt b1.0 b1.1
    base_old ← plus rt b0.0 b0.1
    tb_delta ← minus rt base_new base_old
    account ← try_get_account rt taker_base
    ensure (has_authorized_exactly_on reserves account.1 base base_old dominator) proofs_unsatisfied
    taker_quote ← get leaves (maker_accounts + 2)
    let q0 = split_old_to_u128 taker_quote
    let q1 = split_new_to_u128 taker_quote
    account' ← try_get_account rt taker_quote
    quote_old ← plus rt q0.0 q0.1
    ensure (has_authorized_exactly_on reserves account'.1 quote quote_old dominator)
        proofs_unsatisfied
    tq_delta ← bid_spent q0 q1
    ensure ((account.0 == base) && (account'.0 == quote)) proofs_unsatisfied
    ensure (account.1 == account'.1) proofs_unsatisfied
    ok (record {
      who = account.1;
      base_available = b0.0;
      base_frozen = b0.1;
      base_available' = b1.0;
      base_frozen' = b1.1;
      quote_available' = q1.0;
      quote_frozen' = q1.1;
      base_delta = tb_delta;
      quote_delta = tq_delta;
    })

  -- The base account of maker `i`; `base_delta` is the sum so far.
  pub bid_maker_base : ℕ → ℕ → Result Error MakerSide
  unfolding has_authorized_exactly_on
  bid_maker_base i base_delta = do
    maker_base ← get leaves (i * 2 + 1)
    account ← try_get_account rt maker_base
    mb0 ← split_old_to_sum rt maker_base
    ensure (has_authorized_exactly_on reserves account.1 base mb0 dominator) proofs_unsatisfied
    mb1 ← split_new_to_sum rt maker_base
    base_decr ← minus rt mb0 mb1
    mb_delta ← plus rt base_delta base_decr
    ok (record {
      currency = account.0;
      who = account.1;
      value = mb1;
      moved = base_decr;
      total = mb_delta;
    })

  -- The quote account of maker `i`, after the base account, of the owner `maker` in `bk`.
  pub bid_maker_quote : ℕ → ℕ → ℕ → ℕ → Result Error MakerSide
  unfolding has_authorized_exactly_on
  bid_maker_quote i bk maker quote_delta = do
    maker_quote ← get leaves (i * 2 + 2)
    account ← try_get_account rt maker_quote
    ensure ((quote == account.0) && (base == bk)) proofs_unsatisfied
    ensure (maker == account.1) proofs_unsatisfied
    mq0 ← split_old_to_sum rt maker_quote
    ensure (has_authorized_exactly_on reserves account.1 quote mq0 dominator) proofs_unsatisfied
    mq1 ← split_new_to_sum rt maker_quote
    quote_incr ← ok_or (checked_sub mq1 mq0) overflow
    mq_delta ← ok_or (checked_add quote_delta quote_incr) overflow
    ok (record {
      currency = account.0;
      who = account.1;
      value = mq1;
      moved = quote_incr;
      total = mq_delta;
    })

  -- One round of the loop over the makers, at the two leaves from `i * 2 + 1` on.
  pub bid_maker : ℕ → Makers → Result Error Makers
  bid_maker i so_far = do
    b ← bid_maker_base i so_far.base_delta
    q ← bid_maker_quote i b.currency b.who so_far.quote_delta
    let entry : TokenMutation = record {
      who = b.who;
      matched_volume = q.moved;
      matched_amount = b.moved;
      base_value = b.value;
      quote_value = q.value;
    }
    ok (record { base_delta = b.total; quote_delta = q.total; delta = so_far.delta ++ entry ∷ [] })

  -- `for i in 0..maker_accounts / 2`, by the rounds that are left.
  pub bid_makers : ℕ → ℕ → Makers → Result Error Makers
  unfolding bid_maker
  bid_makers zero i so_far = ok so_far
  bid_makers (suc rounds) i so_far = bid_maker i so_far >>= bid_makers rounds (i + 1)

  -- The fees, which are rounded up: the taker's in base, the makers' in quote.
  pub bid_fees : ℕ → ℕ → Taker → Makers → Result Error (ℕ × ℕ)
  bid_fees maker_fee taker_fee taker makers = do
    let quote_charged = rt.mul_ceil maker_fee taker.quote_delta
    quote_out ← ok_or (checked_add makers.quote_delta quote_charged) overflow
    ensure (quote_out == taker.quote_delta) proofs_unsatisfied
    let base_charged = rt.mul_ceil taker_fee makers.base_delta
    base_in ← ok_or (checked_add taker.base_delta base_charged) overflow
    ensure (base_in == makers.base_delta) proofs_unsatisfied
    ok (base_charged, quote_charged)

  -- What the asks lost is what the makers sold, and the bids gain the rest of the amount, if any.
  pub bid_sizes : ℕ → ℕ × ℕ → Makers → Result Error (Unit {0})
  bid_sizes amount (ask_delta, bid_delta) makers = do
    ensure (ask_delta == makers.base_delta) proofs_unsatisfied
    if not (bid_delta == 0)
        then (do
          rest ← minus rt amount makers.base_delta
          ensure (bid_delta == rest) proofs_unsatisfied)
        else ok tt

  -- The checks of the makers and of the sizes.
  pub bid_matched : ℕ → ℕ → ℕ → ℕ → ℕ × ℕ → Taker → Result Error Matched
  bid_matched amount maker_fee taker_fee maker_accounts moved taker = do
    makers ← bid_makers (maker_accounts / 2) 0 no_makers
    fees ← bid_fees maker_fee taker_fee taker makers
    bid_sizes amount moved makers
    base_value ← ok_or (checked_add taker.base_available' taker.base_frozen') overflow
    quote_value ← ok_or (checked_add taker.quote_available' taker.quote_frozen') overflow
    let entry : TokenMutation = record {
      who = taker.who;
      matched_volume = taker.quote_delta;
      matched_amount = makers.base_delta;
      base_value = base_value;
      quote_value = quote_value;
    }
    ok (record { makers = makers; fees = fees; entry = entry })

  pub verify_bid_limit : ℕ → ℕ → ℕ → ℕ → ℕ → ℕ → Result Error ClearingResult
  verify_bid_limit price amount maker_fee taker_fee maker_accounts pages = do
    moved ← bid_book rt base quote leaves maker_accounts pages
    taker ← bid_taker maker_accounts
    matched ← bid_matched amount maker_fee taker_fee maker_accounts moved taker
    bid_prices rt base quote leaves price amount maker_accounts pages moved.0 moved.1
        taker.base_delta matched.fees.0
    ok (record {
      users_mutation = matched.makers.delta ++ matched.entry ∷ [];
      base_fee = matched.fees.0;
      quote_fee = matched.fees.1;
    })
