-- ===== src/Handler/Tests.antt =====
-- A lock of 1000, of which the fee is 2.
use fusotao_protocol.Base.{
  replicate, List, ℕ, ◌+◌, ◌-◌, ◌*◌, ◌/◌, ◌^◌, ◌<◌, ◌≡◌, ◌≢◌, refl, inl, inr, Bool-cases, true,
  false, none, some, [], ◌∷◌, ◌++◌, ◌==◌, leb, if◌then◌else◌, arith,
}
use fusotao_protocol.Base.Result.{ok, err}
use fusotao_protocol.Base.Action.{Action}
use fusotao_protocol.Token.Types.{root, unsigned, signed}
use fusotao_protocol.Bridge.Types as Bridge
use fusotao_protocol.Bridge.Transfers.{transfer_fungible, bump_nonce}
use fusotao_protocol.Verifier.State.{Asset}
use fusotao_protocol.Verifier.SampleState.{sample_over, nothing_over}
use fusotao_protocol.Base.Runs.{EndsOrKeeps}
use fusotao_protocol.Handler.Types.{
  Error, foreign, Chain, Fungibles, Config, quintill, default_bridging_fee,
}
use fusotao_protocol.Handler.Outgoing.{
  calculate_bridging_fee, charge, check_limit, do_lock, transfer_out,
}
use fusotao_protocol.Handler.Tokens.{fungibles_of, over_tokens, tokens_in, transfer_out-IsSound}
use fusotao_protocol.Token.Types as Tokens
use fusotao_protocol.Token.Sound.{IsSound}
use fusotao_protocol.Token.Samples.{small_runtime, small, small-IsSound}
use fusotao_protocol.Handler.Outgoing.Locked.{free_of, do_lock-locks}
use fusotao_protocol.Handler.Outgoing.Atomic.{transfer_out_atomic}

-- The ledger has a balance for each account, of one token.
abbrev Ledger : Type 0
Ledger = ℕ → ℕ

abbrev moved : ℕ → ℕ → ℕ → Ledger → Ledger
moved who amount to n =
    let m : Ledger = λ a. if a == who then n a - amount else n a in
    λ a. if a == to then m a + amount else m a

abbrev move : ℕ → ℕ → ℕ → ℕ → Action Ledger Error ℕ
move who token amount to n =
    if leb amount (n who) then (ok amount, moved who amount to n) else (err (foreign 1), n)

move_moves :
    (who to token amount v : ℕ) (n n' : Ledger)
    → who ≢ to
    → move who token amount to n ≡ (ok v, n')
    → (n' who + amount ≡ n who)
      × (n' to ≡ n to + amount)
      × ((other : ℕ) → other ≢ who → other ≢ to → n' other ≡ n other)
move_moves who to token amount v n n' apart h = elim (Bool-cases (leb amount (n who))) [
  | inr e ↦ absurd (let h' = h in let e' = e in ground arith)
  | inl e ↦
      let same : moved who amount to n ≡ n' = ground (arith, h, e) in
      rw (← same)
        (ground (arith, e, apart), ground (arith, e, apart), λ other a b. ground (arith, a, b))
]

-- The token that the verifier reserves is the same one; here it reserves nothing.
abbrev idle : {N : Type 0} → Asset N
idle = record {
  native_token_id = 0;
  is_stable = λ token n. true;
  can_reserve = λ token who value n. true;
  reserve = λ token who value n. (ok tt, n);
  unreserve = λ token who value n. (ok tt, n);
  transfer_token = λ who token amount target n. (ok amount, n);
  try_mutate_account = λ token who change n. (ok tt, n);
}

abbrev one_token : Fungibles Ledger
one_token = record {
  native_token_id = 0;
  free_balance = λ token who n. n who;
  transfer_token = move;
  burn_from = λ token who amount n. (ok amount, n);
  mint_into = λ token who amount n. (ok tt, n);
  to_asset_balance = λ amount token n. ok amount;
}

-- Account 1 is the bridge's, account 2 the treasury's. A native token costs a dollar, token 1 has no
-- price.
abbrev handler_over : {N : Type 0} → Fungibles N → Config N
handler_over fungibles = record {
  bridge = record {
    chain_id = 42;
    proposal_lifetime = 100;
    native_resource_id = [];
    block_numbers = 2 ^ 32;
    overflow_checks = true;
    is_admin = λ origin. elim origin [ root ↦ true | unsigned ↦ false | signed who ↦ false ];
    asset_id_by_name = λ chain contract n. some 1;
    dispatch = λ call n. (ok tt, n);
  };
  verifier = sample_over idle;
  fungibles = fungibles;
  get_price = λ token n. if token == 1 then 0 else quintill;
  from_rational = λ p q. p * quintill / q;
  native_token_max_value = 9_000 * quintill;
  bridge_account = 1;
  treasury_account = 2;
  donor_account = 3;
  donation_for_agent = 1;
  account_nonce = λ who n. 0;
}

abbrev small_handler : Config Ledger
small_handler = handler_over one_token

-- Chain 1 is known to the bridge.
abbrev chain_over : {N : Type 0} → N → Chain N
chain_over tokens = record {
  chain_nonces = λ c. if c == 1 then some 6 else none;
  relayer_threshold = 1;
  relayers = [];
  relayer_count = 0;
  votes = λ c n p. none;
  resources = λ id. none;
  now = 20;
  events = [];
  rest = record {
    native_check = true;
    bridging_fee = default_bridging_fee;
    associated_dominator = λ idx. none;
    verifier = nothing_over tokens;
  };
}

-- Account 10 has 5000 tokens.
abbrev funded : Chain Ledger
funded = chain_over (λ a. if a == 10 then 5_000 * quintill else 0)

abbrev locked : Chain Ledger
locked = (do_lock small_handler 10 (1_000 * quintill) [] (8 ∷ []) 1 funded).1

locks : do_lock small_handler 10 (1_000 * quintill) [] (8 ∷ []) 1 funded ≡ (ok tt, locked)
unfolding do_lock check_limit charge calculate_bridging_fee transfer_fungible bump_nonce
locks = refl

do_lock-locks_example :
    (fee nonce : ℕ) × (charge small_handler 0 (1_000 * quintill) funded.rest ≡ ok fee)
    × (fee + fee < 1_000 * quintill)
    × (free_of small_handler 10 locked + 1_000 * quintill ≡ free_of small_handler 10 funded)
    × (free_of small_handler 2 locked ≡ free_of small_handler 2 funded + fee)
    × (free_of small_handler 1 locked ≡ free_of small_handler 1 funded + (1_000 * quintill - fee))
    × (locked.events
        ≡ funded.events
          ++ Bridge.fungible_transfer 1 nonce [] (1_000 * quintill - fee) (8 ∷ []) ∷ [])
do_lock-locks_example =
    do_lock-locks small_handler refl move_moves 10 (1_000 * quintill) [] (8 ∷ []) 1 funded locked
      (omega arith) (omega arith) (omega arith) locks

transfer_out_atomic_example :
    EndsOrKeeps funded (transfer_out small_handler (signed 10) quintill [] (8 ∷ []) 1 funded)
transfer_out_atomic_example =
    transfer_out_atomic small_handler (signed 10) quintill [] (8 ∷ []) 1 funded

-- A resource of chain 1; 40 of token 1 are burned.
abbrev foreign_resource : List ℕ
foreign_resource = replicate 30 0 ++ 1 ∷ 0 ∷ []

abbrev over_small : Chain (Tokens.State ℕ)
over_small = chain_over small

transfer_out-IsSound_example : IsSound (
    tokens_in small_runtime
      (handler_over (fungibles_of small_runtime))
      (transfer_out
        (over_tokens small_runtime (handler_over (fungibles_of small_runtime)))
        (signed 10)
        40
        foreign_resource
        (8 ∷ [])
        1
        over_small).1)
transfer_out-IsSound_example =
    transfer_out-IsSound small_runtime (handler_over (fungibles_of small_runtime)) (signed 10) 40
      foreign_resource (8 ∷ []) 1 over_small small-IsSound
