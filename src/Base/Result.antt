-- ===== src/Base/Result.antt =====
-- What a call ends in: a value, a dispatch error, or a panic, which aborts the whole call.
use mathlib.Core.Path.{◌≡◌, refl}
use mathlib.Core.Logic.{◌⊎◌, inl, inr}
use mathlib.Core.Bool.{Bool, true, false}
use mathlib.Core.Option.{Option, none, some}

pub data Result (E A : Type 0) : Type 0 where
  ok : A → Result E A
  err : E → Result E A
  panicked : Result E A

infixl 5 ◌>>=◌ ◌>>◌
abbrev pub ◌>>=◌ : {E A B : Type 0} → Result E A → (A → Result E B) → Result E B
panicked >>= rest = panicked
err failure >>= rest = err failure
ok x >>= rest = rest x

abbrev pub ◌>>◌ : {E B : Type 0} → Result E (Unit {0}) → Result E B → Result E B
first >> rest = first >>= λ done. rest

-- `ensure!(test, error)`
abbrev pub ensure : {E : Type 0} → Bool → E → Result E (Unit {0})
ensure true e = ok tt
ensure false e = err e

-- `.ok_or(error)`
abbrev pub ok_or : {E A : Type 0} → Option A → E → Result E A
ok_or none e = err e
ok_or (some a) e = ok a

-- A chain with a value passed its first call with a value.
pub >>=-eq-ok :
    {E A B : Type 0} (first : Result E A) (rest : A → Result E B) {v : B}
    → (first >>= rest) ≡ ok v
    → (x : A) × (first ≡ ok x) × (rest x ≡ ok v)
>>=-eq-ok panicked rest e = cc
>>=-eq-ok (err failure) rest e = cc
>>=-eq-ok (ok x) rest e = (x, refl, e)

-- A call that ends in no value.
abbrev pub Fails : {E A : Type 0} → Result E A → Type 0
Fails {E} r = ((e : E) × (r ≡ err e)) ⊎ (r ≡ panicked)

pub Result-cases : {E A : Type 0} (r : Result E A) → ((a : A) × (r ≡ ok a)) ⊎ Fails r
Result-cases (ok a) = inl (a, refl)
Result-cases (err e) = inr (inl (e, refl))
Result-cases panicked = inr (inr refl)

pub ok-injective : {E A : Type 0} {a b : A} → (let r : Result E A = ok a in r ≡ ok b) → a ≡ b
ok-injective h = cc
