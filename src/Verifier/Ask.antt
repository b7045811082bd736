-- ===== src/Verifier/Ask.antt =====
-- `verify_ask_limit` of pallet-fuso-verifier/src/lib.rs, in the parts that its comments name.
pub mod Accepted
pub mod Conservation
mod Tests
use fusotao_protocol.Base.{
  ℕ, zero, suc, ◌+◌, ◌-◌, ◌*◌, ◌/◌, ◌%◌, Bool, true, false, not, Option, none, some, List, [], ◌∷◌,
  ◌++◌, ◌==◌, ◌&&◌, ltb, leb, length, if◌then◌else◌,
}
use fusotao_protocol.Base.Words.{add_in, checked_add, checked_sub}
use fusotao_protocol.Base.Result.{Result, ok, err, panicked, ensure, ok_or, ◌>>=◌, ◌>>◌}
use fusotao_protocol.Verifier.Types.{
  Error, proofs_unsatisfied, overflow, Runtime, Reserves, TokenMutation, ClearingResult, plus,
  minus,
}
use fusotao_protocol.Verifier.Leaf.{
  MerkleLeaf, get, last, try_get_account, try_get_symbol, try_get_orderpage, split_old_to_u128,
  split_new_to_u128, split_old_to_sum, split_new_to_sum,
}
use fusotao_protocol.Verifier.AskBook.{ask_book, ask_prices}
use fusotao_protocol.Verifier.Accounts.{has_authorized_exactly_on}

-- The two accounts of the taker: what was available and frozen before, what is after, and by how
-- much each sum moved.
pub record Taker : Type 0 where
  pub who : ℕ
  pub base_available : ℕ
  pub base_frozen : ℕ
  pub base_available' : ℕ
  pub base_frozen' : ℕ
  pub quote_available' : ℕ
  pub quote_frozen' : ℕ
  pub base_delta : ℕ
  pub quote_delta : ℕ

-- One account of a maker: its key, its new sum, by how much it moved, and the moves so far.
pub record MakerSide : Type 0 where
  pub currency : ℕ
  pub who : ℕ
  pub value : ℕ
  pub moved : ℕ
  pub total : ℕ

-- What the loop over the makers gathers.
pub record Makers : Type 0 where
  pub base_delta : ℕ
  pub quote_delta : ℕ
  pub delta : List TokenMutation

abbrev pub no_makers : Makers
no_makers = record { base_delta = 0; quote_delta = 0; delta = [] }

-- The taker's side of a match, with the moves of the order book.
pub record Taken : Type 0 where
  pub ask_delta : ℕ
  pub bid_delta : ℕ
  pub taker : Taker

-- The makers' side, the fees in base and in quote, and the taker's own entry.
pub record Matched : Type 0 where
  pub makers : Makers
  pub fees : ℕ × ℕ
  pub entry : TokenMutation

module _ (rt : Runtime) (reserves : Reserves) (dominator base quote : ℕ)
    (leaves : List MerkleLeaf) where
  pub ask_taker : ℕ → Result Error Taker
  unfolding has_authorized_exactly_on
  ask_taker maker_accounts = do
    taker_base ← get leaves (maker_accounts + 1)
    account ← try_get_account rt taker_base
    let b0 = split_old_to_u128 taker_base
    base_old ← ok_or (checked_add b0.0 b0.1) overflow
    ensure (has_authorized_exactly_on reserves account.1 base base_old dominator) proofs_unsatisfied
    let b1 = split_new_to_u128 taker_base
    base_old' ← plus rt b0.0 b0.1
    base_new ← plus rt b1.0 b1.1
    tb_delta ← minus rt base_old' base_new
    taker_quote ← get leaves (maker_accounts + 2)
    account' ← try_get_account rt taker_quote
    let q0 = split_old_to_u128 taker_quote
    quote_old ← plus rt q0.0 q0.1
    ensure (has_authorized_exactly_on reserves account'.1 quote quote_old dominator)
        proofs_unsatisfied
    let q1 = split_new_to_u128 taker_quote
    quote_new ← ok_or (checked_add q1.0 q1.1) overflow
    quote_old' ← ok_or (checked_add q0.0 q0.1) overflow
    tq_delta ← ok_or (checked_sub quote_new quote_old') overflow
    ensure ((account.0 == base) && (account'.0 == quote)) proofs_unsatisfied
    ensure (account.1 == account'.1) proofs_unsatisfied
    ok (record {
      who = account.1;
      base_available = b0.0;
      base_frozen = b0.1;
      base_available' = b1.0;
      base_frozen' = b1.1;
      quote_available' = q1.0;
      quote_frozen' = q1.1;
      base_delta = tb_delta;
      quote_delta = tq_delta;
    })

  -- The base account of maker `i`; `base_delta` is the sum so far.
  pub ask_maker_base : ℕ → ℕ → Result Error MakerSide
  unfolding has_authorized_exactly_on
  ask_maker_base i base_delta = do
    maker_base ← get leaves (i * 2 + 1)
    account ← try_get_account rt maker_base
    mb0 ← split_old_to_sum rt maker_base
    ensure (has_authorized_exactly_on reserves account.1 base mb0 dominator) proofs_unsatisfied
    mb1 ← split_new_to_sum rt maker_base
    base_incr ← minus rt mb1 mb0
    mb_delta ← plus rt base_delta base_incr
    ok (record {
      currency = account.0;
      who = account.1;
      value = mb1;
      moved = base_incr;
      total = mb_delta;
    })

  -- The quote account of maker `i`, after the base account, which named the currency `bk`.
  pub ask_maker_quote : ℕ → ℕ → ℕ → Result Error MakerSide
  unfolding has_authorized_exactly_on
  ask_maker_quote i bk quote_delta = do
    maker_quote ← get leaves (i * 2 + 2)
    account ← try_get_account rt maker_quote
    ensure ((base == bk) && (quote == account.0)) proofs_unsatisfied
    mq0 ← split_old_to_sum rt maker_quote
    ensure (has_authorized_exactly_on reserves account.1 quote mq0 dominator) proofs_unsatisfied
    mq1 ← split_new_to_sum rt maker_quote
    quote_decr ← minus rt mq0 mq1
    mq_delta ← plus rt quote_delta quote_decr
    ok (record {
      currency = account.0;
      who = account.1;
      value = mq1;
      moved = quote_decr;
      total = mq_delta;
    })

  -- One round of the loop over the makers, at the two leaves from `i * 2 + 1` on.
  pub ask_maker : ℕ → Makers → Result Error Makers
  ask_maker i so_far = do
    b ← ask_maker_base i so_far.base_delta
    q ← ask_maker_quote i b.currency so_far.quote_delta
    ensure (b.who == q.who) proofs_unsatisfied
    let entry : TokenMutation = record {
      who = q.who;
      matched_volume = q.moved;
      matched_amount = b.moved;
      base_value = b.value;
      quote_value = q.value;
    }
    ok (record { base_delta = b.total; quote_delta = q.total; delta = so_far.delta ++ entry ∷ [] })

  -- `for i in 0..maker_accounts / 2`, by the rounds that are left.
  pub ask_makers : ℕ → ℕ → Makers → Result Error Makers
  unfolding ask_maker
  ask_makers zero i so_far = ok so_far
  ask_makers (suc rounds) i so_far = ask_maker i so_far >>= ask_makers rounds (i + 1)

  -- The fees, which are rounded up: the makers' in base, the taker's in quote.
  pub ask_fees : ℕ → ℕ → Taker → Makers → Result Error (ℕ × ℕ)
  ask_fees maker_fee taker_fee taker makers = do
    let base_charged = rt.mul_ceil maker_fee taker.base_delta
    base_out ← plus rt makers.base_delta base_charged
    ensure (base_out == taker.base_delta) proofs_unsatisfied
    let quote_charged = rt.mul_ceil taker_fee makers.quote_delta
    quote_in ← ok_or (checked_add taker.quote_delta quote_charged) overflow
    ensure (makers.quote_delta == quote_in) proofs_unsatisfied
    ok (base_charged, quote_charged)

  -- What is left of the order stays frozen: the available base falls by the amount of the command
  -- when a rest is placed, and the frozen base stays when none is.
  pub ask_frozen : ℕ → ℕ → Taker → Result Error (Unit {0})
  ask_frozen amount ask_delta taker =
      if not (ask_delta == 0)
      then (do
        base_out ← minus rt taker.base_available taker.base_available'
        ensure (amount == base_out) proofs_unsatisfied)
      else ensure (taker.base_frozen == taker.base_frozen') proofs_unsatisfied

  -- The checks of the order book and of the taker.
  pub ask_taken : ℕ → ℕ → ℕ → Result Error Taken
  ask_taken amount maker_accounts pages = do
    moved ← ask_book rt base quote leaves maker_accounts pages
    taker ← ask_taker maker_accounts
    ask_frozen amount moved.0 taker
    ensure (moved.1 == taker.base_delta) proofs_unsatisfied
    ok (record { ask_delta = moved.0; bid_delta = moved.1; taker = taker })

  -- The checks of the makers, and of the two sides against one another.
  pub ask_matched : ℕ → ℕ → ℕ → Taker → Result Error Matched
  ask_matched maker_fee taker_fee maker_accounts taker = do
    makers ← ask_makers (maker_accounts / 2) 0 no_makers
    fees ← ask_fees maker_fee taker_fee taker makers
    base_value ← plus rt taker.base_available' taker.base_frozen'
    quote_value ← plus rt taker.quote_available' taker.quote_frozen'
    let entry : TokenMutation = record {
      who = taker.who;
      matched_volume = makers.quote_delta;
      matched_amount = taker.base_delta;
      base_value = base_value;
      quote_value = quote_value;
    }
    ok (record { makers = makers; fees = fees; entry = entry })

  pub verify_ask_limit : ℕ → ℕ → ℕ → ℕ → ℕ → ℕ → Result Error ClearingResult
  verify_ask_limit price amount maker_fee taker_fee maker_accounts pages = do
    taken ← ask_taken amount maker_accounts pages
    matched ← ask_matched maker_fee taker_fee maker_accounts taken.taker
    ask_prices rt base quote leaves price amount maker_accounts pages taken.ask_delta
        taken.bid_delta taken.taker.base_delta
    ok (record {
      users_mutation = matched.makers.delta ++ matched.entry ∷ [];
      base_fee = matched.fees.0;
      quote_fee = matched.fees.1;
    })
