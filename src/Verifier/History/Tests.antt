-- ===== src/Verifier/History/Tests.antt =====
-- Calls on a small storage.
use fusotao_protocol.Base.{refl, List, [], ◌∷◌, arith}
use fusotao_protocol.Base.Dict.{total}
use fusotao_protocol.Base.Assoc.{find}
use fusotao_protocol.Token.Types.{root, signed}
use fusotao_protocol.Verifier.SampleState.{small, nothing_yet, one_evicted}
use fusotao_protocol.Verifier.Stakes.Balance.{IsBalanced, is_graded}
use fusotao_protocol.Verifier.Stakes.Evicted.{IsEvicted}
use fusotao_protocol.Verifier.History.{Call, registers, launches, stakes, unstakes, evicts, run}
use fusotao_protocol.Verifier.History.Balance.{run-IsBalanced}
use fusotao_protocol.Verifier.History.Evicted.{run-IsEvicted}

abbrev busy_calls : List Call
busy_calls =
    registers (signed 5) (97 ∷ 98 ∷ [])
    ∷ launches root 5
    ∷ stakes (signed 7) 5 1_500
    ∷ evicts root 5
    ∷ unstakes (signed 7) 5 700
    ∷ []

nothing_yet-IsBalanced : IsBalanced small nothing_yet
unfolding total find is_graded
nothing_yet-IsBalanced = (tt, λ id. (refl, refl))

run-IsBalanced_example : IsBalanced small (run small busy_calls nothing_yet)
run-IsBalanced_example =
    run-IsBalanced small refl (omega arith) (λ cb user s h. h) busy_calls nothing_yet
      nothing_yet-IsBalanced

one_evicted-IsEvicted : IsEvicted 5 one_evicted
unfolding find
one_evicted-IsEvicted = refl

run-IsEvicted_example : IsEvicted 5 (run small busy_calls one_evicted)
run-IsEvicted_example =
    run-IsEvicted small refl 5 (λ cb user s h. h) busy_calls one_evicted one_evicted-IsEvicted
