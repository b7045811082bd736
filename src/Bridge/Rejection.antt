-- ===== src/Bridge/Rejection.antt =====
-- A proposal is rejected only when it can no longer be approved.
use fusotao_protocol.Base.{
  ℕ, ◌+◌, ◌<◌, ◌≤◌, ◌≡◌, Bool, true, false, List, [], ◌∷◌, ◌++◌, ◌==◌, length, length-append,
  Bool-cases, inl, inr, arith, ap,
}
use fusotao_protocol.Base.Result.{ok}
use fusotao_protocol.Bridge.Types.{rejected, ProposalVotes}
use fusotao_protocol.Bridge.Votes.{u32_mod, contains, try_to_complete}
use fusotao_protocol.Bridge.Admin.{without}
use fusotao_protocol.Bridge.Relayers.{IsDistinct, IsFair, without-IsDistinct, length-without}

abbrev pub IsAmong : List ℕ → List ℕ → Type 0
IsAmong xs ys = (x : ℕ) → contains x xs ≡ true → contains x ys ≡ true

contains-without_other :
    (x who : ℕ) (xs : List ℕ)
    → contains x xs ≡ true
    → (x == who) ≡ false
    → contains x (without who xs) ≡ true
contains-without_other x who [] h apart = cc
contains-without_other x who (y ∷ ys) h apart = ground (arith, contains-without_other x who ys)

-- Distinct accounts among others are no more than those.
length-le-among :
    (xs ys : List ℕ) → IsDistinct xs → IsDistinct ys → IsAmong xs ys → length xs ≤ length ys
length-le-among [] ys d e among = omega arith
length-le-among (x ∷ xs) ys d e among =
    let here : contains x ys ≡ true = among x (ground arith) in
    omega (
      arith,
      length-without x ys e here,
      length-le-among xs (without x ys) d.1 (without-IsDistinct x ys e) still_among,
    )
  where
    still_among : IsAmong xs (without x ys)
    still_among z h = elim (Bool-cases (z == x)) [
      | inl same ↦ ground (arith, d.0, h)
      | inr apart ↦ contains-without_other z x ys (among z (ground (arith, h))) apart
    ]

-- When a proposal is rejected among a number of distinct relayers, no votes of distinct relayers
-- with the same votes against reach the threshold, where the votes against with the threshold are
-- below 2 ^ 32.
pub try_to_complete-hopeless :
    (checks : Bool) (threshold : ℕ) (relayers : List ℕ) (v v' w : ProposalVotes)
    → length v.votes_against + threshold < u32_mod
    → try_to_complete checks threshold (length relayers) v ≡ ok (v', rejected)
    → IsDistinct relayers
    → IsFair w
    → w.votes_against ≡ v.votes_against
    → IsAmong (w.votes_for ++ w.votes_against) relayers
    → length w.votes_for < threshold
unfolding try_to_complete
try_to_complete-hopeless checks threshold relayers v v' w room h distinct fair same among = ground (
  arith,
  length-le-among (w.votes_for ++ w.votes_against) relayers fair distinct among,
  length-append w.votes_for w.votes_against,
  ap length same,
)
