-- ===== src/Verifier/SampleState.antt =====
-- A configuration over a ledger that is one number, and small storages, for runs of the calls.
use fusotao_protocol.Base.{ℕ, ◌+◌, ◌-◌, ◌*◌, ◌/◌, true, none, some, [], ◌∷◌, ◌==◌, if◌then◌else◌}
use fusotao_protocol.Base.Result.{ok}
use fusotao_protocol.Verifier.Types.{Reserves}
use fusotao_protocol.Verifier.Samples.{checking, no_reserves, pair, account_leaf}
use fusotao_protocol.Verifier.Leaf.{MerkleLeaf}
use fusotao_protocol.Verifier.State.{
  Dominator, Proof, transfer_in, authorize, State, Asset, Config, dominator_active,
  dominator_evicted,
}

-- The number is what is reserved.
abbrev pub counting : Asset ℕ
counting = record {
  native_token_id = 0;
  is_stable = λ token n. true;
  can_reserve = λ token who value n. true;
  reserve = λ token who value n. (ok tt, n + value);
  unreserve = λ token who value n. (ok tt, n - value);
  transfer_token = λ who token amount target n. (ok amount, n);
  try_mutate_account = λ token who change n. (ok tt, n);
}

-- What each account has reserved, of one token.
abbrev pub Ledger : Type 0
Ledger = ℕ → ℕ

abbrev pub per_account : Asset Ledger
per_account = record {
  native_token_id = 0;
  is_stable = λ token n. true;
  can_reserve = λ token who value n. true;
  reserve = λ token who value n. (ok tt, λ a. if a == who then n a + value else n a);
  unreserve = λ token who value n. (ok tt, λ a. if a == who then n a - value else n a);
  transfer_token = λ who token amount target n. (ok amount, n);
  try_mutate_account = λ token who change n. (ok tt, n);
}

-- The configuration, over any ledger.
abbrev pub sample_over : {N : Type 0} → Asset N → Config N
sample_over asset = record {
  runtime = checking;
  asset = asset;
  save_trading = λ who volume now n. (ok tt, n);
  set_price = λ token amount volume now n. n;
  dominator_online_threshold = 1_000;
  broker_staking_threshold = 50;
  season_duration = 14_400;
  dominator_check_grace_period = 10;
  minimal_staking_amount = 100;
  system_account = 99;
  portion = λ staking staked profit. staking * profit / staked;
  lookup_account = λ address. some address;
  is_ascii = λ name. true;
  zero_hash = [];
  hashing = λ key. key;
  smt_verify = λ proof to leaves. some true;
  verify_beneficiary = λ old new signature n. true;
  inc_account_nonce = λ who n. n;
  uncompressed_size = λ bytes. none;
  decompress = λ bytes size. none;
  decode_proofs = λ bytes. none;
  dispatch = λ cb user s. s;
}

abbrev pub small : Config ℕ
small = sample_over counting

-- The storage at the genesis, with block 57 to come.
abbrev pub nothing_over : {N : Type 0} → N → State N
nothing_over n = record {
  receipts = λ dominator owner. none;
  dominators = [];
  dominator_settings = λ id. none;
  brokers = λ id. none;
  reserves = no_reserves;
  bonuses = λ id season. record { staked = 0; profit = [] };
  stakings = [];
  pending_unstakings = [];
  events = [];
  now = 57;
  native = n;
}

abbrev pub nothing_yet : State ℕ
nothing_yet = nothing_over 0

abbrev pub dominator_of : ℕ → ℕ → Dominator
dominator_of staked status = record {
  name = 97 ∷ 98 ∷ [];
  staked = staked;
  merkle_root = 1 ∷ [];
  start_from = 20;
  sequence = (0, 20);
  status = status;
}

-- Dominator 5 is active by the stake of account 7, which the pallet has reserved.
abbrev pub staked_reserves : Reserves
staked_reserves id who token dominator = 1_500

abbrev pub active_over : {N : Type 0} → N → State N
active_over n = record (nothing_over n) {
  dominators = (5, dominator_of 1_500 dominator_active) ∷ [];
  stakings = ((5, 7), record { from_season = 0; amount = 1_500 }) ∷ [];
  reserves = staked_reserves;
}

abbrev pub one_active : State ℕ
one_active = active_over 0

-- The same dominator was evicted.
abbrev pub one_evicted : State ℕ
one_evicted = record one_active { dominators = (5, dominator_of 1_500 dominator_evicted) ∷ [] }

-- The leaf of account 10 in currency 1, which gains 5, and a proof of the deposit.
abbrev pub deposit_leaf : MerkleLeaf
deposit_leaf = account_leaf 10 1 (pair 3 2) (pair 8 2)

abbrev pub deposit_proof : Proof
deposit_proof = record {
  event_id = 1;
  user_id = 10;
  cmd = transfer_in 1 5;
  leaves = deposit_leaf ∷ [];
  maker_page_delta = 0;
  maker_account_delta = 0;
  merkle_proof = [];
  root = 2 ∷ [];
}

-- Account 10 has a deposit of 5 open.
abbrev pub one_deposit : State ℕ
one_deposit = record one_active {
  receipts = λ dominator owner. if owner == 10 then some (authorize 1 5 57) else none;
}
