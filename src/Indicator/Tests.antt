-- ===== src/Indicator/Tests.antt =====
-- A trade of 100 for 7.
use native.Mathlib.Nat.{mod-lt, div-le_of_le-mul}
use native.Mathlib.Omega.{div_any}
use fusotao_protocol.Base.{
  ℕ, ◌+◌, ◌*◌, ◌/◌, ◌≤◌, ◌<◌, ◌≡◌, ◌⊎◌, inl, inr, Bool-cases, ltb, if◌then◌else◌, refl, true, [],
  ◌==◌, arith,
}
use fusotao_protocol.Base.Result.{ok}
use fusotao_protocol.Indicator.{Config, State, quintill, get_price, price_of, set_price}
use fusotao_protocol.Indicator.Quotient.{set_price-quotient}

-- Token 1 is stable, and a fraction is at most one.
abbrev exact : Config
exact = record {
  overflow_checks = true;
  is_stable = λ token. token == 1;
  from_rational = λ p q. if ltb p q then p * quintill / q else quintill;
}

exact_at_most_one : (p q : ℕ) → exact.from_rational p q ≤ quintill
exact_at_most_one p q = elim (Bool-cases (ltb p q)) [
  | inl less ↦
      let low : p < q = ground (arith, less) in rw less (div-le_of_le-mul q (omega (arith, low)))
  | inr more ↦ ground (arith, more)
]

exact_rounds_down :
    (p q : ℕ)
    → p < q
    → q ≤ quintill
    → (exact.from_rational p q * q ≤ p * quintill)
      × (p * quintill < (exact.from_rational p q + 1) * q)
exact_rounds_down p q less low =
    let split = div_any (p * quintill) q in
    let positive : 0 < q = omega (arith, less) in
    let rest = mod-lt (p * quintill) positive in
    let below : ltb p q ≡ true = ground (arith, less) in
    rw below (omega (arith, split), omega (arith, split, rest))

abbrev no_prices : State
no_prices = record {
  prices = λ token. record {
    price = 0;
    recent_matched_amount = 0;
    recent_matched_vol = 0;
    updated_at = 0;
  };
  events = [];
}

abbrev priced : State
priced = (set_price exact 3 7 100 12 no_prices).1

price_of_3 : get_price exact 3 priced ≡ 14_285_714_285_714_285_714
unfolding get_price set_price price_of
price_of_3 = refl

set_price-quotient_example :
    ((set_price exact 3 7 100 12 no_prices).0 ≡ ok tt)
    × (100 / 7 * quintill ≤ get_price exact 3 priced)
    × (get_price exact 3 priced ≤ (100 / 7 + 1) * quintill)
    × ((quintill < 7)
        ⊎ ((get_price exact 3 priced * 7 ≤ 100 * quintill)
            × (100 * quintill < (get_price exact 3 priced + 1) * 7)))
set_price-quotient_example =
    set_price-quotient exact exact_at_most_one exact_rounds_down 3 7 100 12 no_prices (omega arith)
      (omega arith) (omega arith) refl
