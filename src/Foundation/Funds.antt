-- ===== src/Foundation/Funds.antt =====
-- The map `Foundation` of the funds, as a list with one entry for each account.
-- Source: pallet-fuso-foundation/src/lib.rs.
use fusotao_protocol.Base.{ℕ, ◌≡◌, refl, none, some, List, [], ◌∷◌, ◌==◌, if◌then◌else◌, arith}
use fusotao_protocol.Base.Assoc.{find}
use fusotao_protocol.Foundation.{FoundationData, removed, inserted}
use fusotao_protocol.Foundation.Schedule.{IsRunning}

-- No account has two funds, and every fund has times and an interval.
abbrev pub IsFunds : List (ℕ × FoundationData) → Type 0
IsFunds [] = Unit {0}
IsFunds ((k, fund) ∷ funds) = (find k funds ≡ none) × (IsRunning fund × IsFunds funds)

pub find-removed :
    (j k : ℕ) (fs : List (ℕ × FoundationData))
    → find j (removed k fs) ≡ (if j == k then none else find j fs)
unfolding find
find-removed j k [] = ground arith
find-removed j k (e ∷ fs) = ground (arith, find-removed j k fs)

pub find-inserted :
    (j k : ℕ) (fund : FoundationData) (fs : List (ℕ × FoundationData))
    → find j (inserted k fund fs) ≡ (if j == k then some fund else find j fs)
unfolding find
find-inserted j k fund [] = ground arith
find-inserted j k fund (e ∷ fs) = ground (arith, find-inserted j k fund fs)

pub removed-IsFunds : (k : ℕ) (fs : List (ℕ × FoundationData)) → IsFunds fs → IsFunds (removed k fs)
removed-IsFunds k [] h = tt
removed-IsFunds k ((j, d) ∷ fs) h = ground (arith, removed-IsFunds k fs h.1.1, find-removed j k fs)

pub inserted-IsFunds :
    (k : ℕ) (fund : FoundationData) (fs : List (ℕ × FoundationData))
    → IsRunning fund
    → IsFunds fs
    → IsFunds (inserted k fund fs)
inserted-IsFunds k fund [] run h = (unfold find in refl, (run, tt))
inserted-IsFunds k fund ((j, d) ∷ fs) run h =
    ground (arith, run, inserted-IsFunds k fund fs run h.1.1, find-inserted j k fund fs)
