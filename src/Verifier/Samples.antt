-- ===== src/Verifier/Samples.antt =====
-- A configuration and the encoding of small leaves, for the runs of the checks.
use fusotao_protocol.Base.{ℕ, ◌+◌, ◌*◌, ◌/◌, true, none, some, List, [], ◌∷◌, ◌++◌, replicate}
use fusotao_protocol.Verifier.Types.{Runtime, Reserves}
use fusotao_protocol.Verifier.Leaf.{MerkleLeaf}

abbrev pub checking : Runtime
checking = record {
  overflow_checks = true;
  mul_ceil = λ ppm x. (ppm * x + 999_999) / 1_000_000;
  decode_account = λ bytes. elim bytes [ [] ↦ none | b ∷ bs ↦ some b ];
  max_maker_fee = 10_000;
  max_taker_fee = 10_000;
}

abbrev pub no_reserves : Reserves
no_reserves id who token dominator = 0

abbrev pub u32 : ℕ → List ℕ
u32 n = n ∷ replicate 3 0

abbrev pub u128 : ℕ → List ℕ
u128 n = n ∷ replicate 15 0

abbrev pub pair : ℕ → ℕ → List ℕ
pair a b = u128 a ++ u128 b

abbrev pub account_leaf : ℕ → ℕ → List ℕ → List ℕ → MerkleLeaf
account_leaf who currency before after = record {
  key = 0 ∷ who ∷ replicate 31 0 ++ u32 currency;
  old_v = before;
  new_v = after;
}
