-- ===== src/Verifier/Types.antt =====
-- The errors, the parameters and the records of the proof checks of pallet-fuso-verifier.
-- Source: pallet-fuso-verifier/src/lib.rs, `Error`, `Config`, `TokenMutation`, `ClearingResult`.
use fusotao_protocol.Base.{ℕ, Bool, Option, List}
use fusotao_protocol.Base.Words.{u128_mod, add_in, sub_in}
use fusotao_protocol.Base.Result.{Result}

pub data Error : Type 0 where
  dominator_not_found proofs_unsatisfied illegal_parameters receipt_not_exists : Error
  chain_not_support receipt_already_exists dominator_already_exists too_early_to_register : Error
  dominator_inactive insufficient_balance overflow insufficient_staking_amount : Error
  invalid_name invalid_status invalid_staking staking_not_exists distribution_ongoing : Error
  little_staking_amount unsupported_quote_currency dominator_evicted : Error
  dominator_status_invalid fees_too_high proof_decompress_error proof_format_error : Error
  proof_too_large broker_not_found broker_already_registered invalid_beneficiary_proof : Error

-- What the checks take from outside: the build's overflow checks, `Permill::mul_ceil` of a rate in
-- parts per million, and the decoding of an account from 32 bytes.
pub record Runtime : Type 0 where
  pub overflow_checks : Bool
  pub mul_ceil : ℕ → ℕ → ℕ
  pub decode_account : List ℕ → Option ℕ
  pub max_maker_fee : ℕ
  pub max_taker_fee : ℕ

-- The balances that are reserved, by reserve id, owner, token and dominator.
abbrev pub Reserves : Type 0
Reserves = ℕ → ℕ → ℕ → ℕ → ℕ

pub record TokenMutation : Type 0 where
  pub who : ℕ
  pub matched_volume : ℕ
  pub matched_amount : ℕ
  pub base_value : ℕ
  pub quote_value : ℕ

pub record ClearingResult : Type 0 where
  pub users_mutation : List TokenMutation
  pub base_fee : ℕ
  pub quote_fee : ℕ

-- `+` and `-` on `u128`.
abbrev pub plus : Runtime → ℕ → ℕ → Result Error ℕ
plus rt = add_in u128_mod rt.overflow_checks

abbrev pub minus : Runtime → ℕ → ℕ → Result Error ℕ
minus rt = sub_in u128_mod rt.overflow_checks
