-- ===== src/Verifier/Hosting/Tests.antt =====
-- A revocation from a dominator that was evicted.
use fusotao_protocol.Base.{ℕ, ◌+◌, ◌≤◌, ◌≡◌, refl, none}
use fusotao_protocol.Base.Result.{ok}
use fusotao_protocol.Base.Assoc.{find}
use fusotao_protocol.Verifier.Accounts.{reserve_for_authorizing, has_authorized_morethan}
use fusotao_protocol.Verifier.State.{State, dominator_evicted, reserve_for_authorizing_stash}
use fusotao_protocol.Verifier.SampleState.{small, one_evicted, dominator_of}
use fusotao_protocol.Verifier.Reserving.{unreserve}
use fusotao_protocol.Verifier.Hosting.{return_stash, leave, revoke_from}
use fusotao_protocol.Verifier.Hosting.Exit.{revoke_from-evicted}

abbrev left_once : State ℕ
left_once = (revoke_from small 10 5 1 400 none one_evicted).1

revoked : revoke_from small 10 5 1 400 none one_evicted ≡ (ok tt, left_once)
unfolding revoke_from has_authorized_morethan leave return_stash unreserve find
revoked = refl

revoke_from-evicted_example :
    (400 ≤ 1_500)
    × (left_once.reserves reserve_for_authorizing 10 1 5 + 400 ≡ 1_500 + 1_500)
    × (left_once.reserves reserve_for_authorizing_stash 10 1 5 ≡ 0)
    × (left_once.receipts 5 10 ≡ none)
revoke_from-evicted_example =
    revoke_from-evicted small 10 5 1 400 none (dominator_of 1_500 dominator_evicted) one_evicted
      left_once (unfold find in refl) refl revoked
