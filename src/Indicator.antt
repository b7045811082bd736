-- ===== src/Indicator.antt =====
-- pallet-fuso-indicator: the price of a token, from the latest trades.
-- Source: pallet-fuso-indicator/src/lib.rs.
pub mod Quotient
mod Tests
use fusotao_protocol.Base.{ℕ, ◌/◌, ◌%◌, ◌^◌, Bool, List, [], ◌∷◌, ◌++◌, ◌==◌, ◌||◌, if◌then◌else◌}
use fusotao_protocol.Base.Words.{u128_mod, add_in, mul_in, div_by, rem_by}
use fusotao_protocol.Base.Result.{Result, ok, ◌>>=◌ as ◌then◌}
use fusotao_protocol.Base.Action.{Action, pure, gets, modify, lift, ◌>>=◌, ◌>>◌}
use fusotao_protocol.Base.Assoc.{at_1}

-- The pallet has no errors: a call ends or panics.
pub data Error : Type 0 where

abbrev pub quintill : ℕ
quintill = 10 ^ 18

pub data Event : Type 0 where
  price_updated : ℕ → ℕ → Event

pub record Price : Type 0 where
  pub price : ℕ
  pub recent_matched_amount : ℕ
  pub recent_matched_vol : ℕ
  pub updated_at : ℕ

-- `from_rational` is `Perquintill::from_rational` with its `deconstruct`.
pub record Config : Type 0 where
  pub overflow_checks : Bool
  pub is_stable : ℕ → Bool
  pub from_rational : ℕ → ℕ → ℕ

-- A token without an entry has the default, all zero.
pub record State : Type 0 where
  pub prices : ℕ → Price
  pub events : List Event

abbrev deposit_event : Event → Action State Error (Unit {0})
deposit_event e = modify (λ s. record s { events = s.events ++ e ∷ [] })

module _ (cf : Config) where
  unfoldable pub get_price : ℕ → State → ℕ
  get_price token_id s = if cf.is_stable token_id then quintill else (s.prices token_id).price

  -- `volume / amount * QUINTILL + Perquintill::from_rational(volume % amount, amount)`
  unfoldable pub price_of : ℕ → ℕ → Result Error ℕ
  price_of volume amount = div_by volume amount then λ whole.
      mul_in u128_mod cf.overflow_checks whole quintill then λ scaled.
      rem_by volume amount then λ rest.
      add_in u128_mod cf.overflow_checks scaled (cf.from_rational rest amount)

  unfoldable pub set_price : ℕ → ℕ → ℕ → ℕ → Action State Error (Unit {0})
  set_price token_id amount volume at = if (volume == 0) || (amount == 0) then pure tt else (do
    price ← lift (price_of volume amount)
    let updated : Price = record {
      price = price;
      recent_matched_amount = amount;
      recent_matched_vol = volume;
      updated_at = at;
    }
    modify (λ s. record s { prices = at_1 token_id updated s.prices })
    deposit_event (price_updated token_id price))
