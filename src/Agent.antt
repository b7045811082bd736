-- ===== src/Agent.antt =====
-- pallet-fuso-agent: transactions that carry the signature of another chain.
-- Source: pallet-fuso-agent/src/lib.rs.
pub mod Payload
pub mod Replay
mod Tests
use fusotao_protocol.Base.{
  ℕ, ◌+◌, ◌*◌, ◌^◌, Bool, Option, none, some, List, [], ◌∷◌, ◌++◌, ◌==◌, ltb, drop, if◌then◌else◌,
}
use fusotao_protocol.Base.Words.{u128_mod, saturate}
use fusotao_protocol.Base.Result.{Result, ok, err, panicked, ok_or, ◌>>=◌ as ◌then◌}
use fusotao_protocol.Base.Action.{
  Action, pure, raise, gets, modify, require, or_raise, lift, ◌>>=◌, ◌>>◌,
}
use fusotao_protocol.Token.Types.{Origin, root, unsigned, signed}

-- A call of the runtime is a number; keys and signatures are bytes.
pub data ExternalVerifiable : Type 0 where
  ed25519 : (public : List ℕ) → (tx nonce : ℕ) → (signature : List ℕ) → ExternalVerifiable
  ecdsa : (tx nonce : ℕ) → (signature : List ℕ) → ExternalVerifiable

-- The only call, or one of another pallet.
pub data Call : Type 0 where
  submits : ExternalVerifiable → Call
  another : Call

pub data Error : Type 0 where
  invalid_signature bad_origin : Error

-- `InvalidTransaction`
pub data Invalid : Type 0 where
  bad_proof exhausts_resources payment call : Invalid

-- What a dispatched call ends in: an error has a number.
pub data Event : Type 0 where
  external_transaction_executed : ℕ → Result ℕ (Unit {0}) → Event

pub record Weight : Type 0 where
  pub ref_time : ℕ
  pub proof_size : ℕ

pub record DispatchInfo : Type 0 where
  pub weight : Weight
  pub class : ℕ

pub record ValidTransaction : Type 0 where
  pub priority : ℕ
  pub provides : ℕ
  pub longevity : ℕ
  pub propagate : Bool

-- The configuration, and what other crates implement: the hashes, the recovery of the key, the
-- codec, the weights with their operations, the nonces, the currency and the runtime's calls.
pub record Config (N : Type 0) : Type 0 where
  pub extend_payload : ℕ → ℕ → List ℕ
  pub keccak_256 : List ℕ → List ℕ
  pub blake2_256 : List ℕ → List ℕ
  pub secp256k1_ecdsa_recover : List ℕ → List ℕ → Option (List ℕ)
  pub encode_address : List ℕ → ℕ → List ℕ → List ℕ
  pub decode_account : List ℕ → Option ℕ
  pub encoded_size : ExternalVerifiable → ℕ
  pub main_or_testnet : ℕ
  pub transaction_byte_fee : ℕ
  pub weight_to_fee : Weight → ℕ
  pub base_extrinsic : ℕ → Weight
  pub max_block : Weight
  pub max_length : ℕ
  pub weight_min : Weight → Weight → Weight
  pub weight_any_lt : Weight → Weight → Bool
  pub weight_div : Weight → ℕ → Weight
  pub dispatch_info : ℕ → DispatchInfo
  pub dispatch : ℕ → ℕ → Action N ℕ (Unit {0})
  pub account_nonce : ℕ → N → ℕ
  pub inc_account_nonce : ℕ → N → N
  pub withdraw : ℕ → ℕ → N → Option N

pub record State (N : Type 0) : Type 0 where
  pub events : List Event
  pub native : N

-- `b"-*-#fusotao#-*-"`
abbrev pub address_tag : List ℕ
address_tag = 45 ∷ 42 ∷ 45 ∷ 35 ∷ 102 ∷ 117 ∷ 115 ∷ 111 ∷ 116 ∷ 97 ∷ 111 ∷ 35 ∷ 45 ∷ 42 ∷ 45 ∷ []

abbrev pub u32_mod : ℕ
u32_mod = 2 ^ 32

-- The call and the nonce, whatever the signature.
abbrev pub tx_of : ExternalVerifiable → ℕ
tx_of (ed25519 public tx nonce signature) = tx
tx_of (ecdsa tx nonce signature) = tx

abbrev pub nonce_of : ExternalVerifiable → ℕ
nonce_of (ed25519 public tx nonce signature) = nonce
nonce_of (ecdsa tx nonce signature) = nonce

module _ {N : Type 0} (cf : Config N) where
  -- `dispatch_info_of`
  abbrev pub dispatch_info_of : ExternalVerifiable → DispatchInfo
  dispatch_info_of sig = cf.dispatch_info (tx_of sig)

  -- The account that a recovered key stands for.
  abbrev pub account_of : List ℕ → Option ℕ
  account_of pubkey =
      let address = drop 12 (cf.keccak_256 pubkey) in
      cf.decode_account (cf.blake2_256 (cf.encode_address address_tag cf.main_or_testnet address))

  unfoldable pub extract : ExternalVerifiable → Result Error ℕ
  extract (ed25519 public tx nonce signature) = err invalid_signature
  extract (ecdsa tx nonce signature) =
      let digest = cf.keccak_256 (cf.extend_payload nonce tx) in
      ok_or (cf.secp256k1_ecdsa_recover signature digest) invalid_signature then λ pubkey.
      ok_or (account_of pubkey) invalid_signature

  -- The call runs for the account, and what it ended in is an event.
  abbrev execute : ℕ → ℕ → Action (State N) Error (Unit {0})
  execute account tx s =
      let (r, n) = cf.dispatch tx account s.native in
      (
        ok tt,
        record { events = s.events ++ external_transaction_executed account r ∷ []; native = n },
      )

  unfoldable pub submit_external_tx :
      Origin → ExternalVerifiable → Action (State N) Error (Unit {0})
  submit_external_tx root sig = raise bad_origin
  submit_external_tx (signed who) sig = raise bad_origin
  submit_external_tx unsigned (ed25519 public tx nonce signature) =
      lift (extract (ed25519 public tx nonce signature)) >>= λ account. raise invalid_signature
  submit_external_tx unsigned (ecdsa tx nonce signature) =
      lift (extract (ecdsa tx nonce signature)) >>= λ account. execute account tx

  unfoldable pub withdraw_fee : ℕ → ℕ → Action (State N) Invalid (Unit {0})
  withdraw_fee who fee s = if fee == 0 then (ok tt, s) else elim (cf.withdraw who fee s.native) [
    | none ↦ (err payment, s)
    | some n ↦ (ok tt, record s { native = n })
  ]

  unfoldable pub weight_to_fee : Weight → ℕ
  weight_to_fee weight = cf.weight_to_fee (cf.weight_min weight cf.max_block)

  unfoldable pub compute_fee : ℕ → Weight → ℕ → ℕ
  compute_fee len weight class =
      let len_fee = saturate u128_mod (cf.transaction_byte_fee * len) in
      let base_fee = weight_to_fee (cf.base_extrinsic class) in
      saturate u128_mod (saturate u128_mod (base_fee + len_fee) + weight_to_fee weight)

  -- The size and the weight of the transaction, which have to be small enough.
  unfoldable pub check_size : ExternalVerifiable → Result Invalid ℕ
  check_size sig =
      let len = cf.encoded_size sig in
      let light = cf.weight_any_lt (dispatch_info_of sig).weight (cf.weight_div cf.max_block 5) in
      if ltb len u32_mod
      then (if ltb len cf.max_length
          then (if light then ok len else err exhausts_resources)
          else err exhausts_resources)
      else err exhausts_resources

  abbrev valid : ℕ → DispatchInfo → ValidTransaction
  valid account info = record {
    priority = info.weight.ref_time;
    provides = account;
    longevity = 5;
    propagate = Bool.true;
  }

  -- The size is checked and the fee paid after the nonce was taken.
  unfoldable pub charge_tx : ℕ → ExternalVerifiable → Action (State N) Invalid ValidTransaction
  charge_tx account sig = do
    len ← lift (check_size sig)
    withdraw_fee account
        (compute_fee len (dispatch_info_of sig).weight (dispatch_info_of sig).class)
    pure (valid account (dispatch_info_of sig))

  unfoldable pub validate_tx : ℕ → ExternalVerifiable → Action (State N) Invalid ValidTransaction
  validate_tx account sig = do
    index ← gets (λ s. cf.account_nonce account s.native)
    require (index == nonce_of sig) bad_proof
    modify (λ s. record s { native = cf.inc_account_nonce account s.native })
    charge_tx account sig

  abbrev or_bad_proof : Result Error ℕ → Result Invalid ℕ
  or_bad_proof (ok account) = ok account
  or_bad_proof (err e) = err bad_proof
  or_bad_proof panicked = panicked

  unfoldable pub validate_unsigned : Call → Action (State N) Invalid ValidTransaction
  validate_unsigned another = raise call
  validate_unsigned (submits sig) =
      lift (or_bad_proof (extract sig)) >>= λ account. validate_tx account sig
