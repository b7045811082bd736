-- ===== src/Base/Action.antt =====
-- A call on the chain's storage. The storage comes back after an error too, since what was
-- written stays written, unless a `transactional` layer rolls it back.
use mathlib.Core.Bool.{Bool, true, false}
use mathlib.Core.Option.{Option}
use fusotao_protocol.Base.Result.{Result, ok, err, panicked, ensure, ok_or}

abbrev pub Action : Type 0 → Type 0 → Type 0 → Type 0
Action S E A = S → Result E A × S

module _ {S E A : Type 0} where
  abbrev pub pure : A → Action S E A
  pure a s = (ok a, s)

  abbrev pub raise : E → Action S E A
  raise e s = (err e, s)

  abbrev pub gets : (S → A) → Action S E A
  gets f s = (ok (f s), s)

  abbrev pub lift : Result E A → Action S E A
  lift r s = (r, s)

  abbrev pub or_raise : Option A → E → Action S E A
  or_raise o e s = (ok_or o e, s)

  -- `#[transactional]`: the storage is rolled back unless the call succeeds.
  abbrev pub keep_ok : S → Result E A × S → Result E A × S
  keep_ok s (ok a, s') = (ok a, s')
  keep_ok s (err e, s') = (err e, s)
  keep_ok s (panicked, s') = (panicked, s)

  abbrev pub transactional : Action S E A → Action S E A
  transactional m s = keep_ok s (m s)

module _ {S E A : Type 0} where
  abbrev pub outcome : Result E A × S → Result E Bool × S
  outcome (ok a, s) = (ok true, s)
  outcome (err e, s) = (ok false, s)
  outcome (panicked, s) = (panicked, s)

  -- A call whose error is only logged: did it succeed?
  abbrev pub attempt : Action S E A → Action S E Bool
  attempt m s = outcome (m s)

abbrev pub modify : {S E : Type 0} → (S → S) → Action S E (Unit {0})
modify f s = (ok tt, f s)

abbrev pub require : {S E : Type 0} → Bool → E → Action S E (Unit {0})
require b e s = (ensure b e, s)

abbrev pub bind_result : {S E A B : Type 0} → (A → Action S E B) → Result E A × S → Result E B × S
bind_result f (ok a, s) = f a s
bind_result f (err e, s) = (err e, s)
bind_result f (panicked, s) = (panicked, s)

infixl 5 ◌>>=◌ ◌>>◌
abbrev pub ◌>>=◌ : {S E A B : Type 0} → Action S E A → (A → Action S E B) → Action S E B
◌>>=◌ m f s = bind_result f (m s)

abbrev pub ◌>>◌ : {S E B : Type 0} → Action S E (Unit {0}) → Action S E B → Action S E B
m >> k = m >>= λ _. k
