-- ===== src/Verifier/Seasons/Tests.antt =====
-- The shares of two seasons.
use fusotao_protocol.Base.{ℕ, ◌≡◌, refl, [], ◌∷◌, ◌==◌, if◌then◌else◌}
use fusotao_protocol.Base.Result.{ok}
use fusotao_protocol.Base.Assoc.{entry}
use fusotao_protocol.Verifier.State.{Bonus}
use fusotao_protocol.Verifier.SampleState.{small}
use fusotao_protocol.Verifier.Seasons.{season_shares, gather_shares, add_pending, pending_seasons}
use fusotao_protocol.Verifier.Seasons.Shares.{in_all, gather_shares-pending}

abbrev two_seasons : ℕ → Bonus
two_seasons season =
    if season == 3
    then record { staked = 200; profit = (1, 50) ∷ (4, 20) ∷ [] }
    else record { staked = 400; profit = (4, 40) ∷ [] }

two_gathered : gather_shares small two_seasons 100 2 3 [] ≡ ok ((1, 25) ∷ (4, 20) ∷ [])
unfolding gather_shares season_shares entry
two_gathered = refl

two_pending : pending_seasons small two_seasons 100 2 3 0 ≡ ok 45
unfolding pending_seasons add_pending
two_pending = refl

gather_shares-pending_example : in_all ((1, 25) ∷ (4, 20) ∷ []) ≡ 45
gather_shares-pending_example =
    gather_shares-pending small refl two_seasons 100 2 3 ((1, 25) ∷ (4, 20) ∷ []) 45 two_gathered
      two_pending
