-- ===== src/Verifier/Reserving/Tests.antt =====
-- A reservation and its return, over a storage of pallet-fuso-token.
use fusotao_protocol.Base.{ℕ, ◌≡◌, refl, true, arith}
use fusotao_protocol.Base.Result.{ok}
use fusotao_protocol.Base.Dict.{lookup}
use fusotao_protocol.Base.Action.{◌>>◌}
use fusotao_protocol.Token.Types as Tokens
use fusotao_protocol.Token.Accounts as Accounts
use fusotao_protocol.Token.Samples.{small_runtime, small}
use fusotao_protocol.Verifier.State.{Asset, State}
use fusotao_protocol.Verifier.SampleState.{sample_over, active_over}
use fusotao_protocol.Verifier.Reserving.{reserve, unreserve}
use fusotao_protocol.Verifier.Reserving.Undo.{from_tokens, unreserve-reserve_dominated}

-- Every error of the token pallet has the same index here.
abbrev index_of : Tokens.Error → ℕ
index_of e = 6

abbrev token_asset : Asset (Tokens.State ℕ)
token_asset = record {
  native_token_id = 0;
  is_stable = λ token n. true;
  can_reserve = Accounts.can_reserve small_runtime;
  reserve =
      λ token who value n. from_tokens index_of (Accounts.reserve small_runtime token who value n);
  unreserve = λ token who value n.
      from_tokens index_of (Accounts.unreserve small_runtime token who value n);
  transfer_token = λ who token amount target n.
      from_tokens index_of (Accounts.transfer_token small_runtime who token amount target n);
  try_mutate_account = λ token who change n. (ok tt, n);
}

-- Dominator 5 is active, over the small storage of the tokens.
abbrev over_tokens : State (Tokens.State ℕ)
over_tokens = active_over small

-- Account 10 has 100 of token 1 free, of which it reserves 40 for dominator 5.
unreserve-reserve_dominated_example :
    let (r, s') =
      (reserve (sample_over token_asset) 2 10 1 40 5
          >> unreserve (sample_over token_asset) 2 10 1 40 5)
        over_tokens in
    (r ≡ ok tt)
    × (s' ≡ record over_tokens { native = s'.native })
    × (s'.native.balances ≡ small.balances)
unfolding lookup
unreserve-reserve_dominated_example =
    unreserve-reserve_dominated small_runtime index_of (sample_over token_asset)
      (λ token who value n. refl) (λ token who value n. refl) 2 10 1 40 5
      (record { free = 100; reserved = 5 }) over_tokens (ground arith) refl (omega arith)
      (omega arith) (omega arith)
