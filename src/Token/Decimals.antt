-- ===== src/Token/Decimals.antt =====
-- `unify_decimals` of pallet-fuso-token/src/lib.rs, from a token's decimals to the standard 18.
pub mod Exact
use fusotao_protocol.Base.{
  ℕ, zero, suc, ◌+◌, ◌-◌, ◌*◌, ◌/◌, ◌%◌, ◌^◌, ◌<◌, ◌≡◌, refl, Bool, true, false, arith, ltb,
  if◌then◌else◌,
}
use fusotao_protocol.Base.Words.{u128_mod, mul_in}
use fusotao_protocol.Base.Result.{Result, ok, panicked, ◌>>=◌}
use fusotao_protocol.Token.Types.{Error}
use fusotao_protocol.Support.{standard_decimals}

-- `for _i in 0..diff { amount /= 10 }`
scale_down : ℕ → ℕ → ℕ
scale_down zero amount = amount
scale_down (suc diff) amount = scale_down diff (amount / 10)

-- `for _i in 0..diff { amount *= 10 }`, on `u128`.
scale_up : Bool → ℕ → ℕ → Result Error ℕ
scale_up checks zero amount = ok amount
scale_up checks (suc diff) amount = mul_in u128_mod checks amount 10 >>= scale_up checks diff

unfoldable pub unify_decimals : Bool → ℕ → ℕ → Result Error ℕ
unfolding scale_down scale_up
unify_decimals checks amount decimals =
    if ltb standard_decimals decimals
    then ok (scale_down (decimals - standard_decimals) amount)
    else scale_up checks (standard_decimals - decimals) amount
