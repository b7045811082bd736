-- ===== src/Base/Assoc.antt =====
-- Maps with keys of one number: an association list, for a map that is iterated, and a function
-- that is changed at a key, for one that is not.
use Prim.Native.Nat.{ℕ, compare, Ordering}
use mathlib.Core.Path.{◌≡◌, refl}
use mathlib.Core.Bool.{◌&&◌}
use mathlib.Core.Option.{Option, none, some}
use mathlib.Core.List.{List, [], ◌∷◌}
use native.Mathlib.Omega.{arith}
use fusotao_protocol.Base.Tests.{◌==◌, if◌then◌else◌}
use fusotao_protocol.Base.Result.{Result, ok, ◌>>=◌}

-- A function changed at one key, of one part, of two, or of four.
module _ {V : Type 0} where
  abbrev pub at_1 : ℕ → V → (ℕ → V) → ℕ → V
  at_1 k v f i = if i == k then v else f i

  abbrev pub at_2 : ℕ → ℕ → V → (ℕ → ℕ → V) → ℕ → ℕ → V
  at_2 k l v f i j = if (i == k) && (j == l) then v else f i j

  abbrev pub at_4 : ℕ → ℕ → ℕ → ℕ → V → (ℕ → ℕ → ℕ → ℕ → V) → ℕ → ℕ → ℕ → ℕ → V
  at_4 a b c d v f i j k l =
      if (i == a) && ((j == b) && ((k == c) && (l == d))) then v else f i j k l

module _ {V : Type 0} where
  unfoldable pub find : ℕ → List (ℕ × V) → Option V
  find k [] = none
  find k (e ∷ es) = if k == e.0 then some e.1 else find k es

  unfoldable pub store : ℕ → V → List (ℕ × V) → List (ℕ × V)
  store k v [] = (k, v) ∷ []
  store k v (e ∷ es) = if k == e.0 then (k, v) ∷ es else e ∷ store k v es

  pub find-store :
      (j k : ℕ) (v : V) (es : List (ℕ × V))
      → find j (store k v es) ≡ (if j == k then some v else find j es)
  unfolding find store
  find-store j k v [] = refl
  find-store j k v (e ∷ es) = ground (arith, find-store j k v es)

-- `entry(key).and_modify(change).or_insert(value)` on a `BTreeMap`, whose keys are in order.
unfoldable pub entry :
    {E V : Type 0} → (V → Result E V) → V → ℕ → List (ℕ × V) → Result E (List (ℕ × V))
entry change v k [] = ok ((k, v) ∷ [])
entry change v k (e ∷ es) =
    let rest = entry change v k es in
    elim (compare k e.0) [
      | Ordering.lt ↦ ok ((k, v) ∷ e ∷ es)
      | Ordering.eq ↦ change e.1 >>= λ w. ok ((k, w) ∷ es)
      | Ordering.gt ↦ rest >>= λ es'. ok (e ∷ es')
    ]
