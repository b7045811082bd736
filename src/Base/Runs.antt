-- ===== src/Base/Runs.antt =====
-- Runs of actions: what a chain passed through when it ended well.
use mathlib.Core.Path.{◌≡◌, refl}
use mathlib.Core.Logic.{◌⊎◌, inl, inr}
use fusotao_protocol.Base.Result.{Result, ok, err, panicked}
use fusotao_protocol.Base.Action.{Action, bind_result, keep_ok, ◌>>=◌, ◌>>◌}

-- A chain that ended well passed its first call with a value.
pub >>=-ok :
    {S E A B : Type 0} (m : Action S E A) (k : A → Action S E B) (s : S) {v : B} {s' : S}
    → (m >>= k) s ≡ (ok v, s')
    → (a : A) × (s1 : S) × (m s ≡ (ok a, s1)) × (k a s1 ≡ (ok v, s'))
>>=-ok {S} {E} {A} {B} m k s {v} {s'} h = by_result (m s) refl
  where
    by_result :
        (r : Result E A × S)
        → m s ≡ r
        → (a : A) × (s1 : S) × (m s ≡ (ok a, s1)) × (k a s1 ≡ (ok v, s'))
    by_result (ok a, s1) e = (a, s1, e, let h' : bind_result k (m s) ≡ (ok v, s') = h in rw e at h')
    by_result (err x, s1) e =
        let h' : bind_result k (m s) ≡ (ok v, s') = h in let g = rw e at h' in cc
    by_result (panicked, s1) e =
        let h' : bind_result k (m s) ≡ (ok v, s') = h in let g = rw e at h' in cc

-- A call ended well, or left the storage as it was.
abbrev pub EndsOrKeeps : {S E A : Type 0} → S → Result E A × S → Type 0
EndsOrKeeps {S} {E} {A} s r = ((v : A) × (s' : S) × (r ≡ (ok v, s'))) ⊎ (r.1 ≡ s)

pub keep_ok-cases : {S E A : Type 0} (s : S) (r : Result E A × S) → EndsOrKeeps s (keep_ok s r)
keep_ok-cases s (ok a, s1) = inl (a, s1, refl)
keep_ok-cases s (err x, s1) = inr refl
keep_ok-cases s (panicked, s1) = inr refl

-- What holds before a transaction and after its calls holds after it.
pub keep_ok-holds :
    {S E A : Type 0} (P : S → Type 0) (s : S) (r : Result E A × S) → P s → P r.1 → P (keep_ok s r).1
keep_ok-holds P s (ok a, s1) h k = k
keep_ok-holds P s (err x, s1) h k = h
keep_ok-holds P s (panicked, s1) h k = h

-- What holds after the first call, and is kept by the rest, holds after both.
pub bind_result-holds :
    {S E A B : Type 0} (P : S → Type 0) (k : A → Action S E B) (r : Result E A × S)
    → P r.1
    → ((a : A) (s : S) → P s → P (k a s).1)
    → P (bind_result k r).1
bind_result-holds P k (ok a, s) h rest = rest a s h
bind_result-holds P k (err e, s) h rest = h
bind_result-holds P k (panicked, s) h rest = h

-- A transaction that ended well ended as its calls did.
pub transactional-ok :
    {S E A : Type 0} (m : Action S E A) (s : S) {v : A} {s' : S}
    → keep_ok s (m s) ≡ (ok v, s')
    → m s ≡ (ok v, s')
transactional-ok {S} {E} {A} m s {v} {s'} h = by_result (m s) h
  where
    by_result : (r : Result E A × S) → keep_ok s r ≡ (ok v, s') → r ≡ (ok v, s')
    by_result (ok a, s1) e = e
    by_result (err x, s1) e = cc
    by_result (panicked, s1) e = cc

-- A chain whose first call ended well goes on from where that call left the storage.
pub >>-after_ok :
    {S E B : Type 0} (m : Action S E (Unit {0})) (k : Action S E B) (s : S)
    → (m s).0 ≡ ok tt
    → (m >> k) s ≡ k (m s).1
>>-after_ok {S} {E} {B} m k s h = by_result (m s) h
  where
    by_result : (r : Result E (Unit {0}) × S) → r.0 ≡ ok tt → bind_result (λ _. k) r ≡ k r.1
    by_result (ok tt, s1) e = refl
    by_result (err x, s1) e = cc
    by_result (panicked, s1) e = cc
