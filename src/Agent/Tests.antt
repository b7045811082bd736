-- ===== src/Agent/Tests.antt =====
-- A transaction of account 7 with nonce 3.
use fusotao_protocol.Base.{
  ◌≢◌, ◌<◌, ◌^◌, ◌⊎◌, ℕ, ◌+◌, ◌≤◌, ◌≡◌, refl, true, ap, Option, none, some, List, [], ◌∷◌, ◌==◌,
  ltb, leb, if◌then◌else◌, arith,
}
use fusotao_protocol.Base.Result.{ok, err}
use fusotao_protocol.Token.Types.{unsigned}
use fusotao_protocol.Agent.{
  ExternalVerifiable, ecdsa, submits, bad_proof, Weight, ValidTransaction, State, Config, extract,
  submit_external_tx, withdraw_fee, compute_fee, weight_to_fee, check_size, charge_tx, validate_tx,
  validate_unsigned,
}
use fusotao_protocol.Agent.Payload.{decimal, value_after, decimal-value, extend_payload}
use fusotao_protocol.Agent.Replay.{Step, GoesBack, validates, executes, run, validate_unsigned-once}

-- The nonces of all accounts.
abbrev Nonces : Type 0
Nonces = ℕ → ℕ

abbrev light : Weight
light = record { ref_time = 10; proof_size = 0 }

abbrev small_agent : Config Nonces
small_agent = record {
  extend_payload = extend_payload (λ nonce tx. nonce ∷ tx ∷ []) (λ bytes. bytes);
  keccak_256 = λ bytes. bytes;
  blake2_256 = λ bytes. bytes;
  secp256k1_ecdsa_recover = λ signature digest. some signature;
  encode_address = λ tag net address. address;
  decode_account = λ bytes. some 7;
  encoded_size = λ sig. 100;
  main_or_testnet = 0;
  transaction_byte_fee = 1;
  weight_to_fee = λ weight. weight.ref_time;
  base_extrinsic = λ class. light;
  max_block = record { ref_time = 1_000; proof_size = 1_000 };
  max_length = 5_000;
  weight_min = λ v w. if leb v.ref_time w.ref_time then v else w;
  weight_any_lt = λ v w. ltb v.ref_time w.ref_time;
  weight_div = λ w n. w;
  dispatch_info = λ tx. record { weight = light; class = 0 };
  dispatch = λ tx account n. (ok tt, n);
  account_nonce = λ who n. n who;
  inc_account_nonce = λ who n other. if other == who then n other + 1 else n other;
  withdraw = λ who fee n. some n;
}

abbrev third : ExternalVerifiable
third = ecdsa 42 3 []

abbrev before : State Nonces
before = record { events = []; native = λ who. 3 }

abbrev after : State Nonces
after = (validate_unsigned small_agent (submits third) before).1

abbrev accepted : ValidTransaction
accepted = record { priority = 10; provides = 7; longevity = 5; propagate = true }

validated : validate_unsigned small_agent (submits third) before ≡ (ok accepted, after)
unfolding validate_unsigned extract validate_tx charge_tx check_size withdraw_fee compute_fee
    weight_to_fee
validated = refl

abbrev once_run : List Step
once_run = executes unsigned third ∷ validates (submits third) ∷ []

-- The nonce of an account, or none.
abbrev nonce_or_0 : ℕ → Option Nonces → ℕ
nonce_or_0 who none = 0
nonce_or_0 who (some n) = n who

withdrawing_keeps :
    (who fee other : ℕ) (n n' : Nonces)
    → small_agent.withdraw who fee n ≡ some n'
    → n other ≤ n' other
withdrawing_keeps who fee other n n' e =
    let same : n other ≡ n' other = ap (nonce_or_0 other) e in omega (arith, same)

counts :
    (who : ℕ) (n : Nonces)
    → n who + 1 < 2 ^ 32
    → small_agent.inc_account_nonce who n who ≡ n who + 1
counts who n short = ground arith

others_stay :
    (who other : ℕ) (n : Nonces) → other ≢ who → small_agent.inc_account_nonce who n other ≡ n other
others_stay who other n apart = ground (arith, apart)

validate_unsigned-once_example :
    (validate_unsigned small_agent (submits third) (run small_agent once_run after)
      ≡ (err bad_proof, run small_agent once_run after))
    ⊎ GoesBack small_agent (2 ^ 32) 7 once_run after
validate_unsigned-once_example =
    validate_unsigned-once small_agent (2 ^ 32) counts others_stay withdrawing_keeps third 7
      once_run before after accepted (unfold extract in refl) (omega arith) validated

-- A runtime whose calls reap the account, so that its nonce starts over.
abbrev reaping : Config Nonces
reaping = record small_agent { dispatch = λ tx account n. (ok tt, λ who. 0) }

abbrev starting : ExternalVerifiable
starting = ecdsa 42 0 []

abbrev fresh : State Nonces
fresh = record { events = []; native = λ who. 0 }

-- The same transaction is then validated again.
replayed :
    (validate_unsigned reaping
      (submits starting)
      (submit_external_tx reaping unsigned starting
        (validate_unsigned reaping (submits starting) fresh).1).1).0
    ≡ ok accepted
unfolding validate_unsigned extract validate_tx charge_tx check_size withdraw_fee compute_fee
    weight_to_fee submit_external_tx
replayed = refl

-- The length of a payload of 104 bytes, in hexadecimal.
digits_of_208 : value_after 0 (decimal 208) ≡ 208
digits_of_208 = decimal-value 208
