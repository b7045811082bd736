-- ===== src/Bridge/Relayers.antt =====
-- Lists of accounts without repetition: the relayers, and the votes of a proposal.
use fusotao_protocol.Base.{
  ℕ, ◌+◌, ◌≡◌, refl, Bool, true, false, ◌||◌, List, [], ◌∷◌, ◌++◌, ◌==◌, length, arith, ap, ◌∙◌,
  append_assoc,
}
use fusotao_protocol.Bridge.Types.{ProposalVotes, Runtime}
use fusotao_protocol.Bridge.Votes.{contains, has_voted}
use fusotao_protocol.Bridge.Admin.{without}
use fusotao_protocol.Bridge.Voting.{voted}

abbrev pub IsDistinct : List ℕ → Type 0
IsDistinct [] = Unit {0}
IsDistinct (x ∷ xs) = (contains x xs ≡ false) × IsDistinct xs

-- Nobody is counted twice, on one side or on both.
abbrev pub IsFair : ProposalVotes → Type 0
IsFair v = IsDistinct (v.votes_for ++ v.votes_against)

contains-without :
    (who other : ℕ) (xs : List ℕ)
    → contains other xs ≡ false
    → contains other (without who xs) ≡ false
contains-without who other [] h = refl
contains-without who other (x ∷ xs) h = ground (arith, contains-without who other xs)

pub without-IsDistinct : (who : ℕ) (xs : List ℕ) → IsDistinct xs → IsDistinct (without who xs)
without-IsDistinct who [] d = tt
without-IsDistinct who (x ∷ xs) d =
    ground (arith, contains-without who x xs d.0, without-IsDistinct who xs d.1)

without-absent : (who : ℕ) (xs : List ℕ) → contains who xs ≡ false → without who xs ≡ xs
without-absent who [] h = refl
without-absent who (x ∷ xs) h = ground (arith, without-absent who xs)

pub length-without :
    (who : ℕ) (xs : List ℕ)
    → IsDistinct xs
    → contains who xs ≡ true
    → length (without who xs) + 1 ≡ length xs
length-without who [] d h = cc
length-without who (x ∷ xs) d h = ground (arith, length-without who xs d.1, without-absent who xs)

contains-insert :
    (x who : ℕ) (xs ys : List ℕ)
    → contains x (xs ++ ys) ≡ false
    → (x == who) ≡ false
    → contains x (xs ++ who ∷ ys) ≡ false
contains-insert x who [] ys h apart = ground arith
contains-insert x who (z ∷ zs) ys h apart = ground (arith, contains-insert x who zs ys)

-- A new account may stand anywhere.
insert-IsDistinct :
    (who : ℕ) (xs ys : List ℕ)
    → IsDistinct (xs ++ ys)
    → contains who (xs ++ ys) ≡ false
    → IsDistinct (xs ++ who ∷ ys)
insert-IsDistinct who [] ys d h = (h, d)
insert-IsDistinct who (x ∷ xs) ys d h =
    ground (arith, contains-insert x who xs ys d.0, insert-IsDistinct who xs ys d.1)

append-nil : (xs : List ℕ) → xs ++ [] ≡ xs
append-nil [] = refl
append-nil (x ∷ xs) = ap (λ ys. x ∷ ys) (append-nil xs)

contains-append :
    (who : ℕ) (xs ys : List ℕ) → contains who (xs ++ ys) ≡ contains who xs || contains who ys
contains-append who [] ys = refl
contains-append who (x ∷ xs) ys = ground (arith, contains-append who xs ys)

-- A vote of an account that has none leaves the votes fair.
pub voted-IsFair :
    {N : Type 0} (rt : Runtime N) (who : ℕ) (in_favour : Bool) (v : ProposalVotes)
    → IsFair v
    → has_voted v who ≡ false
    → IsFair (voted rt who in_favour v)
voted-IsFair rt who true v fair fresh = rw (append_assoc v.votes_for (who ∷ []) v.votes_against) (
    insert-IsDistinct who v.votes_for v.votes_against fair
      (contains-append who v.votes_for v.votes_against ∙ fresh))
voted-IsFair rt who false v fair fresh =
    rw (← append_assoc v.votes_for v.votes_against (who ∷ [])) (
      insert-IsDistinct who (v.votes_for ++ v.votes_against) []
        (rw (append-nil (v.votes_for ++ v.votes_against)) fair)
        (rw (append-nil (v.votes_for ++ v.votes_against))
          (contains-append who v.votes_for v.votes_against ∙ fresh)))
