-- ===== src/Base/Dict.antt =====
-- A storage map with enumerable entries: an association list with keys of two numbers.
use Prim.Native.Nat.{ℕ, ◌+◌}
use mathlib.Core.Path.{◌≡◌, refl}
use mathlib.Core.Bool.{Bool, false, ◌&&◌}
use mathlib.Core.Option.{Option, none, some}
use mathlib.Core.List.{List, [], ◌∷◌}
use native.Mathlib.Omega.{arith}
use fusotao_protocol.Base.Tests.{◌==◌, if◌then◌else◌}

abbrev pub Key : Type 0
Key = ℕ × ℕ

abbrev pub key_eq : Key → Key → Bool
key_eq (a, b) (c, d) = (a == c) && (b == d)

abbrev pub Dict : Type 0 → Type 0
Dict V = List (Key × V)

module _ {V : Type 0} where
  unfoldable pub lookup : Key → Dict V → Option V
  lookup k [] = none
  lookup k ((j, v) ∷ d) = if key_eq k j then some v else lookup k d

  unfoldable pub insert : Key → V → Dict V → Dict V
  insert k v [] = (k, v) ∷ []
  insert k v (e ∷ d) = if key_eq k e.0 then (k, v) ∷ d else e ∷ insert k v d

  unfoldable pub erase : Key → Dict V → Dict V
  erase k [] = []
  erase k (e ∷ d) = if key_eq k e.0 then erase k d else e ∷ erase k d

  -- The value under a key becomes `o`: `none` removes the entry.
  abbrev pub put : Key → Option V → Dict V → Dict V
  put k (some v) d = insert k v d
  put k none d = erase k d

  pub lookup-insert :
      (j k : Key) (v : V) (d : Dict V)
      → lookup j (insert k v d) ≡ (if key_eq j k then some v else lookup j d)
  unfolding lookup insert
  lookup-insert j k v [] = refl
  lookup-insert j k v (e ∷ d) = ground (arith, lookup-insert j k v d)

  pub lookup-erase :
      (j k : Key) (d : Dict V) → lookup j (erase k d) ≡ (if key_eq j k then none else lookup j d)
  unfolding lookup erase
  lookup-erase j k [] = ground arith
  lookup-erase j k (e ∷ d) = ground (arith, lookup-erase j k d)

  pub lookup-put :
      (j k : Key) (o : Option V) (d : Dict V)
      → lookup j (put k o d) ≡ (if key_eq j k then o else lookup j d)
  lookup-put j k none d = lookup-erase j k d
  lookup-put j k (some v) d = lookup-insert j k v d

  -- No key stands twice.
  abbrev pub IsDict : Dict V → Type 0
  IsDict [] = Unit
  IsDict ((k, v) ∷ d) = (lookup k d ≡ none) × IsDict d

  pub erase_missing : (k : Key) (d : Dict V) → lookup k d ≡ none → erase k d ≡ d
  unfolding lookup erase
  erase_missing k [] h = refl
  erase_missing k (e ∷ d) h = ground (arith, erase_missing k d)

  pub insert-IsDict : (k : Key) (v : V) (d : Dict V) → IsDict d → IsDict (insert k v d)
  unfolding insert
  insert-IsDict k v [] h = (unfold lookup in refl, tt)
  insert-IsDict k v (e ∷ d) h = ground (arith, insert-IsDict k v d h.1, lookup-insert e.0 k v d)

  pub erase-IsDict : (k : Key) (d : Dict V) → IsDict d → IsDict (erase k d)
  unfolding erase
  erase-IsDict k [] h = tt
  erase-IsDict k (e ∷ d) h = ground (arith, erase-IsDict k d h.1, lookup-erase e.0 k d)

  pub put-IsDict : (k : Key) (o : Option V) (d : Dict V) → IsDict d → IsDict (put k o d)
  put-IsDict k none d h = erase-IsDict k d h
  put-IsDict k (some v) d h = insert-IsDict k v d h

-- A change of one entry after a write of another.
pub lookup-put-insert :
    {V : Type 0} (k j : Key) (o : Option V) (v : V) (d : Dict V)
    → key_eq k j ≡ false
    → (lookup k (put k o (insert j v d)) ≡ o) × (lookup j (put k o (insert j v d)) ≡ some v)
lookup-put-insert k j o v d apart =
    ground (
      arith,
      lookup-put k k o (insert j v d),
      lookup-put j k o (insert j v d),
      lookup-insert j j v d,
    )

-- Writes of one entry.
module _ {V : Type 0} where
  -- The second write counts.
  pub insert-insert : (k : Key) (u v : V) (d : Dict V) → insert k v (insert k u d) ≡ insert k v d
  unfolding insert
  insert-insert k u v [] = ground arith
  insert-insert k u v (e ∷ d) = ground (arith, insert-insert k u v d)

  -- Writing what is there changes nothing.
  pub insert_same : (k : Key) (v : V) (d : Dict V) → lookup k d ≡ some v → insert k v d ≡ d
  unfolding insert lookup
  insert_same k v [] h = cc
  insert_same k v (e ∷ d) h = ground (arith, insert_same k v d)

-- The sum of a weight over the entries.
module _ {V : Type 0} (w : ℕ → ℕ → V → ℕ) where
  unfoldable pub total : Dict V → ℕ
  total [] = 0
  total ((k, v) ∷ d) = w k.0 k.1 v + total d

  -- What an entry, or its absence, adds.
  abbrev pub weight : Key → Option V → ℕ
  weight k none = 0
  weight k (some v) = w k.0 k.1 v

  total-erase :
      (k : Key) (d : Dict V) → IsDict d → total (erase k d) + weight k (lookup k d) ≡ total d
  unfolding total erase lookup
  total-erase k [] h = omega arith
  total-erase k (e ∷ d) h = ground (arith, total-erase k d h.1, erase_missing k d)

  total-insert :
      (k : Key) (v : V) (d : Dict V)
      → IsDict d
      → total (insert k v d) + weight k (lookup k d) ≡ total d + w k.0 k.1 v
  unfolding total insert lookup
  total-insert k v [] h = omega arith
  total-insert k v (e ∷ d) h = ground (arith, total-insert k v d h.1)

  -- A change of one entry changes the sum by the difference of the weights.
  pub total-put :
      (k : Key) (o : Option V) (d : Dict V)
      → IsDict d
      → total (put k o d) + weight k (lookup k d) ≡ total d + weight k o
  total-put k none d h = omega (arith, total-erase k d h)
  total-put k (some v) d h = total-insert k v d h

  -- A change of one entry after a change of another.
  pub total-put-insert :
      (k j : Key) (o : Option V) (v : V) (d : Dict V)
      → IsDict d
      → key_eq k j ≡ false
      → total (put k o (insert j v d)) + (weight k (lookup k d) + weight j (lookup j d))
        ≡ total d + (weight k o + w j.0 j.1 v)
  total-put-insert k j o v d h apart = ground (
    arith,
    lookup-insert k j v d,
    total-put k o (insert j v d) (insert-IsDict j v d h),
    total-put j (some v) d h,
  )

  -- Two changes of the same entry: the second one counts.
  pub total-put-insert_self :
      (k : Key) (o : Option V) (v : V) (d : Dict V)
      → IsDict d
      → total (put k o (insert k v d)) + weight k (lookup k d) ≡ total d + weight k o
  total-put-insert_self k o v d h = ground (
    arith,
    lookup-insert k k v d,
    total-put k o (insert k v d) (insert-IsDict k v d h),
    total-put k (some v) d h,
  )
