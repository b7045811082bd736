-- ===== src/Support.antt =====
-- fuso-support: the constants and the token descriptions that the pallets share.
-- Source: fuso-support/src/lib.rs and fuso-support/src/external_chain.rs.
pub mod ResourceId
use fusotao_protocol.Base.{ℕ, Bool, false, List, []}

abbrev pub standard_decimals : ℕ
standard_decimals = 18

abbrev pub max_decimals : ℕ
max_decimals = 24

-- Symbol, contract address, total, stable and decimals; symbol and total for `fnd10`.
pub data XToken : Type 0 where
  nep141 erc20 bep20 : List ℕ → List ℕ → ℕ → Bool → ℕ → XToken
  fnd10 : List ℕ → ℕ → XToken

abbrev pub is_stable : XToken → Bool
is_stable (nep141 symbol contract total stable decimals) = stable
is_stable (erc20 symbol contract total stable decimals) = stable
is_stable (bep20 symbol contract total stable decimals) = stable
is_stable (fnd10 symbol total) = false

abbrev pub symbol_of : XToken → List ℕ
symbol_of (nep141 symbol contract total stable decimals) = symbol
symbol_of (erc20 symbol contract total stable decimals) = symbol
symbol_of (bep20 symbol contract total stable decimals) = symbol
symbol_of (fnd10 symbol total) = symbol

abbrev pub contract_of : XToken → List ℕ
contract_of (nep141 symbol contract total stable decimals) = contract
contract_of (erc20 symbol contract total stable decimals) = contract
contract_of (bep20 symbol contract total stable decimals) = contract
contract_of (fnd10 symbol total) = []
