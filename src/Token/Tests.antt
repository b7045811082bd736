-- ===== src/Token/Tests.antt =====
-- Runs and instances on a small ledger: token 1 with two accounts, and a FND10 token 2.
use fusotao_protocol.Base.{
  ℕ, ◌+◌, ◌-◌, ◌*◌, ◌^◌, ◌≤◌, ◌≡◌, ◌↔◌, refl, true, false, some, List, [], ◌∷◌, arith,
}
use fusotao_protocol.Base.Dict.{Key, lookup}
use fusotao_protocol.Base.Result.{Result, ok, err}
use fusotao_protocol.Support.{erc20}
use fusotao_protocol.Token.Types.{
  AccountData, or_default, signed, Error, amount_zero, to_free, token_transfered,
}
use fusotao_protocol.Token.Samples.{small_runtime, usdt, small, small-IsSound}
use fusotao_protocol.Token.Ledger.{held}
use fusotao_protocol.Token.Sound.{IsSound, issued}
use fusotao_protocol.Token.Decimals.{unify_decimals}
use fusotao_protocol.Token.Decimals.Exact.{unify_decimals_lem}
use fusotao_protocol.Token.Accounts.{transfer_token, repatriate_reserved}
use fusotao_protocol.Token.Accounts.Transfer.{transfer_token_moves, held-transfer_token_self}
use fusotao_protocol.Token.Accounts.Repatriate.{held-repatriate_reserved}
use fusotao_protocol.Token.Queries.{balance, total_issuance}
use fusotao_protocol.Token.Queries.Laws.{balance-le-issuance}
use fusotao_protocol.Token.Issuance.{create, do_mint, do_burn}
use fusotao_protocol.Token.Issuance.Minting.{minted, do_mint_adds, do_mint_fnd10}
use fusotao_protocol.Token.Issuance.Burning.{do_burn-do_mint}
use fusotao_protocol.Token.Issuance.Creation.{IsCreatable, create_iff}
use fusotao_protocol.Token.History.{Call, run, run-IsSound}

abbrev calls : List Call
calls =
    Call.transfers (signed 10) 1 11 40
    ∷ Call.moves 10 1 10 10
    ∷ Call.reserves 1 11 20
    ∷ Call.repatriates 1 11 12 15 to_free
    ∷ Call.mints 1 12 500
    ∷ Call.issues (signed 7) (erc20 (65 ∷ 66 ∷ []) [] 9 false 6)
    ∷ []

run-IsSound_example : IsSound (run small_runtime calls small)
run-IsSound_example = run-IsSound small_runtime calls small (omega arith) small-IsSound

transfer_token_moves_example :
    let (r, s') = transfer_token small_runtime 10 1 40 11 small in
    (r ≡ ok 40)
    × (lookup (1, 10) s'.balances ≡ some (record { free = 60; reserved = 5 }))
    × (lookup (1, 11) s'.balances ≡ some (record { free = 47; reserved = 0 }))
    × (s'.events ≡ token_transfered 1 10 11 40 ∷ [])
unfolding lookup
transfer_token_moves_example =
    transfer_token_moves small_runtime 10 1 40 11 (record { free = 100; reserved = 5 }) small
      (omega arith) (omega arith) (omega arith) refl (omega arith) (omega arith)

held-transfer_token_self_example :
    let (r, s') = transfer_token small_runtime 10 1 40 10 small in
    (r ≡ ok 40) × (held 1 s' + 40 ≡ held 1 small)
unfolding lookup
held-transfer_token_self_example =
    held-transfer_token_self small_runtime 10 1 40 (record { free = 100; reserved = 5 }) small
      small-IsSound.keyed (omega arith) refl (omega arith) (omega arith)

held-repatriate_reserved_example :
    held 1 (repatriate_reserved small_runtime 1 10 11 5 to_free small).1 ≡ held 1 small
held-repatriate_reserved_example =
    held-repatriate_reserved small_runtime 1 1 10 11 5 to_free small small-IsSound.keyed

unify_decimals_lem_example : unify_decimals true 12345 6 ≡ ok (12345 * 10 ^ 12)
unify_decimals_lem_example = unify_decimals_lem true 12345 6 (omega arith)

balance-le-issuance_example :
    (balance small_runtime 1 10 small ≡ ok 105) × (105 ≤ total_issuance small_runtime 1 small)
unfolding lookup
balance-le-issuance_example =
    balance-le-issuance small_runtime 1 10 small (omega arith) small-IsSound

-- A withdrawal of 60, or of what there is.
abbrev withdraw_60 : AccountData → Result Error (ℕ × AccountData)
withdraw_60 a = ok (60, record a { free = a.free - 60 })

small_unified : unify_decimals true 25 18 ≡ ok 25
unfolding unify_decimals
small_unified = refl

do_mint_adds_example :
    do_mint small_runtime 1 11 25 small ≡ (ok tt, minted small_runtime 1 11 25 18 25 usdt small)
unfolding lookup
do_mint_adds_example =
    do_mint_adds small_runtime 1 11 25 18 25 usdt small refl refl (omega arith) small_unified
      (omega arith) (omega arith) (omega arith)

do_mint_fnd10_example : do_mint small_runtime 2 11 25 small ≡ (err amount_zero, small)
do_mint_fnd10_example =
    do_mint_fnd10 small_runtime 2 11 25 (84 ∷ 65 ∷ 79 ∷ []) 0 small small-IsSound refl (omega arith)

do_burn-do_mint_example :
    let (r, s') = do_burn small_runtime 1 11 25 (do_mint small_runtime 1 11 25 small).1 in
    (r ≡ ok 25)
    × ((k : Key) → or_default (lookup k s'.balances) ≡ or_default (lookup k small.balances))
    × ((t : ℕ) → issued (s'.tokens t) ≡ issued (small.tokens t))
unfolding lookup
do_burn-do_mint_example =
    do_burn-do_mint small_runtime 1 11 25 18 25 usdt small refl refl (omega arith) small_unified
      (omega arith) (omega arith) (omega arith)

create_iff_example :
    ((create small_runtime usdt small).0 ≡ ok 3) ↔ IsCreatable small_runtime usdt small
create_iff_example = create_iff small_runtime usdt small (omega arith)
