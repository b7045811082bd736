-- ===== src/Verifier/Commands/Tests.antt =====
-- A deposit that is hosted and then accepted.
use fusotao_protocol.Base.{ℕ, ◌+◌, ◌≡◌, refl, none}
use fusotao_protocol.Base.Result.{ok}
use fusotao_protocol.Base.Assoc.{find}
use fusotao_protocol.Verifier.Leaf.{get, from_le_bytes, split_value, try_get_account}
use fusotao_protocol.Verifier.Moves.{verify_transfer_in}
use fusotao_protocol.Verifier.State.{State}
use fusotao_protocol.Verifier.SampleState.{small, one_active, deposit_proof}
use fusotao_protocol.Verifier.Reserving.{reserve}
use fusotao_protocol.Verifier.Hosting.{authorize_to}
use fusotao_protocol.Verifier.Commands.{is_authorize_of, accept_transfer_in}
use fusotao_protocol.Verifier.Commands.Funds.{authorized, stashed, deposit-moves}

abbrev hosted_once : State ℕ
hosted_once = (authorize_to small 10 5 1 5 one_active).1

abbrev accepted_once : State ℕ
accepted_once = (accept_transfer_in small 5 deposit_proof 1 5 hosted_once).1

hosted : authorize_to small 10 5 1 5 one_active ≡ (ok tt, hosted_once)
unfolding authorize_to reserve find
hosted = refl

accepted : accept_transfer_in small 5 deposit_proof 1 5 hosted_once ≡ (ok tt, accepted_once)
unfolding accept_transfer_in authorize_to reserve find is_authorize_of verify_transfer_in get
    from_le_bytes split_value try_get_account
accepted = refl

deposit-moves_example :
    (authorized 10 1 5 accepted_once ≡ authorized 10 1 5 one_active + 5)
    × (stashed 10 1 5 accepted_once ≡ 0)
    × (stashed 10 1 5 hosted_once ≡ stashed 10 1 5 one_active + 5)
    × (accepted_once.receipts 5 10 ≡ none)
deposit-moves_example =
    deposit-moves small 5 1 5 deposit_proof one_active hosted_once hosted_once accepted_once hosted
      refl refl accepted
