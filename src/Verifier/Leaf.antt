-- ===== src/Verifier/Leaf.antt =====
-- `MerkleLeaf` of pallet-fuso-verifier/src/lib.rs: keys and values as bytes.
use fusotao_protocol.Base.{
  ℕ, ◌+◌, ◌*◌, none, some, List, [], ◌∷◌, ◌==◌, ◌||◌, length, take, drop, get_elem?,
}
use fusotao_protocol.Base.Result.{Result, ok, panicked, ensure, ok_or, ◌>>=◌, ◌>>◌}
use fusotao_protocol.Verifier.Types.{Error, proofs_unsatisfied, Runtime, plus}

pub record MerkleLeaf : Type 0 where
  pub key : List ℕ
  pub old_v : List ℕ
  pub new_v : List ℕ

abbrev pub account_key : ℕ
account_key = 0

abbrev pub orderbook_key : ℕ
orderbook_key = 1

abbrev pub bestprice_key : ℕ
bestprice_key = 2

abbrev pub orderpage_key : ℕ
orderpage_key = 3

-- `from_le_bytes`
unfoldable pub from_le_bytes : List ℕ → ℕ
from_le_bytes [] = 0
from_le_bytes (b ∷ bs) = b + 256 * from_le_bytes bs

-- `xs[i]`, which panics out of range.
unfoldable pub get : {A : Type 0} → List A → ℕ → Result Error A
get xs i = elim (get_elem? xs i) [ none ↦ panicked | some x ↦ ok x ]

-- `leaves.last().unwrap()`
unfoldable pub last : {A : Type 0} → List A → Result Error A
last [] = panicked
last (x ∷ []) = ok x
last (x ∷ y ∷ xs) = last (y ∷ xs)

-- `bytes[i..j]` of a range within the bytes.
abbrev pub slice : List ℕ → ℕ → ℕ → List ℕ
slice bytes i n = take n (drop i bytes)

module _ (rt : Runtime) (leaf : MerkleLeaf) where
  -- The currency and the account of an account key.
  unfoldable pub try_get_account : Result Error (ℕ × ℕ)
  unfolding get from_le_bytes
  try_get_account = do
    ensure (length leaf.key == 37) proofs_unsatisfied
    tag ← get leaf.key 0
    ensure (tag == account_key) proofs_unsatisfied
    who ← ok_or (rt.decode_account (slice leaf.key 1 32)) proofs_unsatisfied
    ok (from_le_bytes (drop 33 leaf.key), who)

  -- The base and the quote of an order book key or a best price key.
  unfoldable pub try_get_symbol : Result Error (ℕ × ℕ)
  unfolding get from_le_bytes
  try_get_symbol = do
    ensure (length leaf.key == 9) proofs_unsatisfied
    tag ← get leaf.key 0
    ensure ((tag == orderbook_key) || (tag == bestprice_key)) proofs_unsatisfied
    ok (from_le_bytes (slice leaf.key 1 4), from_le_bytes (drop 5 leaf.key))

  -- The base, the quote and the price of an order page key.
  unfoldable pub try_get_orderpage : Result Error (ℕ × ℕ × ℕ)
  unfolding get from_le_bytes
  try_get_orderpage = do
    ensure (length leaf.key == 25) proofs_unsatisfied
    tag ← get leaf.key 0
    ensure (tag == orderpage_key) proofs_unsatisfied
    ok (
      from_le_bytes (slice leaf.key 1 4),
      from_le_bytes (slice leaf.key 5 4),
      from_le_bytes (drop 9 leaf.key),
    )

-- The two `u128` of a value.
unfoldable pub split_value : List ℕ → ℕ × ℕ
unfolding from_le_bytes
split_value v = (from_le_bytes (take 16 v), from_le_bytes (drop 16 v))

abbrev pub split_old_to_u128 : MerkleLeaf → ℕ × ℕ
split_old_to_u128 leaf = split_value leaf.old_v

abbrev pub split_new_to_u128 : MerkleLeaf → ℕ × ℕ
split_new_to_u128 leaf = split_value leaf.new_v

abbrev pub split_old_to_sum : Runtime → MerkleLeaf → Result Error ℕ
split_old_to_sum rt leaf = let v = split_old_to_u128 leaf in plus rt v.0 v.1

abbrev pub split_new_to_sum : Runtime → MerkleLeaf → Result Error ℕ
split_new_to_sum rt leaf = let v = split_new_to_u128 leaf in plus rt v.0 v.1
