-- ===== src/Token/Samples.antt =====
-- A configuration over a native ledger that is one number, and a small storage: token 1 with two
-- accounts, and a FND10 token 2.
use fusotao_protocol.Base.{
  ℕ, ◌-◌, ◌^◌, refl, Bool, true, false, Option, none, some, List, [], ◌∷◌, ◌==◌, ◌&&◌, ltb,
  if◌then◌else◌, arith,
}
use fusotao_protocol.Base.Dict.{lookup, total}
use fusotao_protocol.Base.Result.{ok}
use fusotao_protocol.Support.{XToken, nep141, fnd10}
use fusotao_protocol.Token.Types.{root, Runtime, State}
use fusotao_protocol.Token.Ledger.{held}
use fusotao_protocol.Token.Sound.{IsSound}

abbrev pub all_ascii : List ℕ → Bool
all_ascii [] = true
all_ascii (b ∷ bs) = ltb b 128 && all_ascii bs

-- The native ledger is a number here, its issuance.
abbrev pub small_runtime : Runtime ℕ
small_runtime = record {
  native_token_id = 0;
  near_chain_id = 255;
  eth_chain_id = 1;
  bnb_chain_id = 56;
  native_chain_id = 42;
  burn_when_issue = 3;
  token_ids = 2 ^ 32;
  overflow_checks = true;
  is_admin = λ origin. elim origin [ root ↦ true | _ ↦ false ];
  lookup_account = λ address. some address;
  is_ascii = all_ascii;
  native_free = λ n who. n;
  native_reserved = λ n who. 0;
  native_issuance = λ n. n;
  native_can_reserve = λ n who value. false;
  native_transfer = λ from to amount n. (ok tt, n);
  native_burn_from = λ who amount n. (ok tt, n - amount);
  native_reserve = λ who value n. (ok tt, n);
  native_unreserve = λ who value n. n;
  native_repatriate = λ from to value status n. (ok tt, n);
  store_account = λ who account n. (ok tt, n);
  store_issuance = λ issuance n. issuance;
}

abbrev pub usdt : XToken
usdt = nep141 (85 ∷ 83 ∷ 68 ∷ 84 ∷ []) (117 ∷ 115 ∷ 100 ∷ 116 ∷ []) 1000 true 18

abbrev pub small_tokens : ℕ → Option XToken
small_tokens t =
    if t == 1 then some usdt else if t == 2 then some (fnd10 (84 ∷ 65 ∷ 79 ∷ []) 0) else none

abbrev pub small : State ℕ
small = record {
  balances =
      ((1, 10), record { free = 100; reserved = 5 })
      ∷ ((1, 11), record { free = 7; reserved = 0 })
      ∷ [];
  tokens = small_tokens;
  next_token_id = 3;
  token_by_name = λ name. none;
  token_by_contract = λ chain contract. none;
  events = [];
  native = 50;
}

pub small-IsSound : IsSound small
unfolding held total lookup
small-IsSound = record {
  keyed = (refl, (refl, tt));
  backed = λ t. ground arith;
  bounded = λ t. ground arith;
  fresh = λ t h. ground arith;
  unminted = λ t symbol n h. ground arith;
}
