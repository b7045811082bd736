-- ===== src/Indicator/Quotient.antt =====
-- The price against the quotient of the volume and the amount.
use fusotao_protocol.Base.{
  ℕ, ◌+◌, ◌*◌, ◌%◌, ◌/◌, ◌≤◌, ◌<◌, ◌≡◌, ◌⊎◌, inl, inr, Bool-cases, ltb, false, arith,
}
use native.Mathlib.Nat.{mod-lt, div-le_self}
use native.Mathlib.Omega.{div_any}
use fusotao_protocol.Base.Words.{u128_mod}
use fusotao_protocol.Base.Result.{ok}
use fusotao_protocol.Indicator.{Config, State, quintill, get_price, price_of, set_price}

module _ (cf : Config) (at_most_one : (p q : ℕ) → cf.from_rational p q ≤ quintill)
    (rounds_down : (p q : ℕ)
      → p < q
      → q ≤ quintill
      → (cf.from_rational p q * q ≤ p * quintill)
        × (p * quintill < (cf.from_rational p q + 1) * q)) where
  price_of-ok :
      (volume amount : ℕ)
      → 0 < amount
      → (volume + 1) * quintill < u128_mod
      → price_of cf volume amount
        ≡ ok (volume / amount * quintill + cf.from_rational (volume % amount) amount)
  unfolding price_of
  price_of-ok volume amount positive small =
      let part = at_most_one (volume % amount) amount in
      let fewer = div-le_self volume amount in ground (arith, positive, small, part, fewer)

  -- Where the fraction is exact, the sum is the quotient.
  quotient_exact :
      (volume amount : ℕ)
      → 0 < amount
      → amount ≤ quintill
      → let price = volume / amount * quintill + cf.from_rational (volume % amount) amount in
        (price * amount ≤ volume * quintill) × (volume * quintill < (price + 1) * amount)
  quotient_exact volume amount positive low =
      let split = div_any volume amount in
      let d = rounds_down (volume % amount) amount (mod-lt volume positive) low in
      (omega (arith, split, d.0), omega (arith, split, d.1))

  -- A trade of a positive volume for a positive amount, where one more than the volume fits 128
  -- bits in units of 10 ^ -18, sets the price of a token that is not stable, where `from_rational`
  -- is never above one: in these units it is at least the whole part of the quotient of volume and
  -- amount, and at most one more. It is the quotient rounded down where the amount is at most 10 ^
  -- 18, if `from_rational` rounds down for denominators of at most 10 ^ 18.
  pub set_price-quotient :
      (token_id amount volume at : ℕ) (s : State)
      → 0 < volume
      → 0 < amount
      → (volume + 1) * quintill < u128_mod
      → cf.is_stable token_id ≡ false
      → let (r, s') = set_price cf token_id amount volume at s in
        let price = get_price cf token_id s' in
        (r ≡ ok tt)
        × (volume / amount * quintill ≤ price)
        × (price ≤ (volume / amount + 1) * quintill)
        × ((quintill < amount)
            ⊎ ((price * amount ≤ volume * quintill) × (volume * quintill < (price + 1) * amount)))
  unfolding set_price get_price
  set_price-quotient token_id amount volume at s traded positive small changing =
      let priced = price_of-ok volume amount positive small in
      let part = at_most_one (volume % amount) amount in
      let exact = quotient_exact volume amount positive in
      elim (Bool-cases (ltb quintill amount)) [
        | inl high ↦ rw priced (
          ground (arith, traded, positive, changing),
          ground (arith, traded, positive, changing),
          ground (arith, traded, positive, changing, part),
          inl (ground (arith, high)),
        )
        | inr low ↦
            let fits : amount ≤ quintill = ground (arith, low) in
            rw priced (
              ground (arith, traded, positive, changing),
              ground (arith, traded, positive, changing),
              ground (arith, traded, positive, changing, part),
              inr (ground (arith, traded, positive, changing, exact fits)),
            )
      ]
