-- ===== src/Verifier/Sums.antt =====
-- What the leaves of a proof hold, and what the mutations of a match leave the users.
use fusotao_protocol.Base.{
  ℕ, zero, suc, ◌+◌, ◌*◌, ◌≡◌, refl, Option, none, some, List, [], ◌∷◌, ◌++◌, get_elem?, arith,
}
use fusotao_protocol.Base.Result.{ok, err, panicked}
use fusotao_protocol.Verifier.Types.{Runtime, TokenMutation}
use fusotao_protocol.Verifier.Leaf.{MerkleLeaf, split_value, try_get_account}

-- Both halves of the old value of a leaf.
abbrev pub old_sum : Option MerkleLeaf → ℕ
old_sum none = 0
old_sum (some leaf) = (split_value leaf.old_v).0 + (split_value leaf.old_v).1

module _ (leaves : List MerkleLeaf) where
  -- What maker `i` had before.
  abbrev pub base_before : ℕ → ℕ
  base_before i = old_sum (get_elem? leaves (i * 2 + 1))

  abbrev pub quote_before : ℕ → ℕ
  quote_before i = old_sum (get_elem? leaves (i * 2 + 2))

  -- The makers from `i` on had together, for a number of them.
  unfoldable pub bases_before : ℕ → ℕ → ℕ
  bases_before zero i = 0
  bases_before (suc rounds) i = base_before i + bases_before rounds (i + 1)

  unfoldable pub quotes_before : ℕ → ℕ → ℕ
  quotes_before zero i = 0
  quotes_before (suc rounds) i = quote_before i + quotes_before rounds (i + 1)

-- The sum of one figure over the mutations.
unfoldable pub sum_of : (TokenMutation → ℕ) → List TokenMutation → ℕ
sum_of f [] = 0
sum_of f (m ∷ ms) = f m + sum_of f ms

abbrev pub bases_after : List TokenMutation → ℕ
bases_after = sum_of (λ m. m.base_value)

abbrev pub quotes_after : List TokenMutation → ℕ
quotes_after = sum_of (λ m. m.quote_value)

pub sum_of-nil : (f : TokenMutation → ℕ) → sum_of f [] ≡ 0
unfolding sum_of
sum_of-nil f = refl

pub sum_of-snoc :
    (f : TokenMutation → ℕ) (ms : List TokenMutation) (m : TokenMutation)
    → sum_of f (ms ++ m ∷ []) ≡ sum_of f ms + f m
unfolding sum_of
sum_of-snoc f [] m = omega arith
sum_of-snoc f (x ∷ ms) m = omega (arith, sum_of-snoc f ms m)

-- Both halves of the new value of a leaf.
abbrev pub new_sum : Option MerkleLeaf → ℕ
new_sum none = 0
new_sum (some leaf) = (split_value leaf.new_v).0 + (split_value leaf.new_v).1

-- The account that a leaf names.
abbrev pub who_of : Runtime → Option MerkleLeaf → ℕ
who_of rt none = 0
who_of rt (some leaf) = elim (try_get_account rt leaf) [
  | ok account ↦ account.1
  | err e ↦ 0
  | panicked ↦ 0
]
