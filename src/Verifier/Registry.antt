-- ===== src/Verifier/Registry.antt =====
-- Dominators and brokers: registration, status and settings.
-- Source: pallet-fuso-verifier/src/lib.rs.
pub mod Balance
pub mod Evicted
pub mod Laws
use fusotao_protocol.Base.{
  ℕ, ◌-◌, Bool, true, false, Option, none, some, List, [], ◌∷◌, not, ◌==◌, ◌&&◌, ◌||◌, leb, length,
  bytes_eq, if◌then◌else◌,
}
use fusotao_protocol.Base.Words.{rem_by}
use fusotao_protocol.Base.Action.{Action, pure, gets, modify, require, or_raise, lift, ◌>>=◌, ◌>>◌}
use fusotao_protocol.Base.Assoc.{at_1, find}
use fusotao_protocol.Token.Types.{Origin}
use fusotao_protocol.Verifier.Types.{
  invalid_name, too_early_to_register, dominator_already_exists, dominator_not_found,
  dominator_status_invalid, invalid_beneficiary_proof, broker_already_registered, broker_not_found,
}
use fusotao_protocol.Verifier.State.{
  Failure, of_pallet, cannot_lookup, Dominator, DominatorSetting, Broker, State, Config,
  dominator_claimed, dominator_was_evicted, dominator_was_launched, dominator_x25519_key_updated,
  dominator_rpc_endpoint_updated, dominator_registered, dominator_inactive, dominator_evicted,
  deposit_event, on_native, ensure_signed, ensure_root,
}
use fusotao_protocol.Verifier.Hosting.{has}
use fusotao_protocol.Verifier.Stakes.{put_dominator, get_dominator}

-- Does a dominator have the name?
unfoldable pub is_named : List ℕ → List (ℕ × Dominator) → Bool
is_named name [] = false
is_named name ((id, d) ∷ ds) = bytes_eq d.name name || is_named name ds

-- A setting with one part changed, or made with it.
abbrev pub with_pubkey : List ℕ → Option DominatorSetting → DominatorSetting
with_pubkey key none = record { beneficiary = none; x25519_pubkey = key; rpc_endpoint = [] }
with_pubkey key (some setting) = record setting { x25519_pubkey = key }

abbrev pub with_endpoint : List ℕ → Option DominatorSetting → DominatorSetting
with_endpoint url none = record { beneficiary = none; x25519_pubkey = []; rpc_endpoint = url }
with_endpoint url (some setting) = record setting { rpc_endpoint = url }

module _ {N : Type 0} where
  abbrev pub put_setting : ℕ → DominatorSetting → Action (State N) Failure (Unit {0})
  put_setting id setting =
      modify (λ s. record s { dominator_settings = at_1 id (some setting) s.dominator_settings })

  abbrev pub require_dominator : ℕ → Action (State N) Failure (Unit {0})
  require_dominator id = do
    known ← gets (λ s. find id s.dominators)
    require (has known) (of_pallet dominator_not_found)

module _ {N : Type 0} (cf : Config N) where
  pub register : Origin → List ℕ → Action (State N) Failure (Unit {0})
  register origin identifier = do
    dominator ← ensure_signed origin
    require (cf.is_ascii identifier) (of_pallet invalid_name)
    require (leb 2 (length identifier) && leb (length identifier) 32) (of_pallet invalid_name)
    current_block ← gets (λ s. s.now)
    require (leb cf.dominator_check_grace_period current_block) (of_pallet too_early_to_register)
    known ← gets (λ s. find dominator s.dominators)
    require (not (has known)) (of_pallet dominator_already_exists)
    taken ← gets (λ s. is_named identifier s.dominators)
    require (not taken) (of_pallet invalid_name)
    phase ← lift (rem_by current_block cf.dominator_check_grace_period)
    put_dominator dominator (record {
      name = identifier;
      staked = 0;
      start_from = current_block - phase;
      sequence = (0, current_block);
      merkle_root = cf.zero_hash;
      status = dominator_registered;
    })
    deposit_event (dominator_claimed dominator)

  pub evict : Origin → ℕ → Action (State N) Failure (Unit {0})
  evict origin dominator_id = do
    ensure_root origin
    dominator ← or_raise (cf.lookup_account dominator_id) cannot_lookup
    d ← get_dominator dominator
    put_dominator dominator (record d { status = dominator_evicted })
    deposit_event (dominator_was_evicted dominator)

  pub launch : Origin → ℕ → Action (State N) Failure (Unit {0})
  launch origin dominator_id = do
    ensure_root origin
    dominator ← or_raise (cf.lookup_account dominator_id) cannot_lookup
    d ← get_dominator dominator
    require (d.status == dominator_registered) (of_pallet dominator_status_invalid)
    put_dominator dominator (record d { status = dominator_inactive })
    deposit_event (dominator_was_launched dominator)

  pub dominator_set_pubkey : Origin → List ℕ → Action (State N) Failure (Unit {0})
  dominator_set_pubkey origin key = do
    dominator ← ensure_signed origin
    require_dominator dominator
    setting ← gets (λ s. s.dominator_settings dominator)
    put_setting dominator (with_pubkey key setting)
    deposit_event (dominator_x25519_key_updated dominator key)

  pub dominator_set_rpc_endpoint : Origin → List ℕ → Action (State N) Failure (Unit {0})
  dominator_set_rpc_endpoint origin rpc_endpoint = do
    dominator ← ensure_signed origin
    require_dominator dominator
    setting ← gets (λ s. s.dominator_settings dominator)
    put_setting dominator (with_endpoint rpc_endpoint setting)
    deposit_event (dominator_rpc_endpoint_updated dominator rpc_endpoint)

  -- The old beneficiary, if there is one, has signed the new one with its nonce.
  pub validate_beneficiary : Option ℕ → List ℕ → ℕ → Action (State N) Failure (Unit {0})
  validate_beneficiary none signature new_beneficiary = pure tt
  validate_beneficiary (some old) signature new_beneficiary = do
    signed_by_old ← gets (λ s. cf.verify_beneficiary old new_beneficiary signature s.native)
    require signed_by_old (of_pallet invalid_beneficiary_proof)
    modify (λ s. record s { native = cf.inc_account_nonce old s.native })

  -- The change of the setting: a new one needs no signature.
  abbrev pub change_beneficiary :
      ℕ → ℕ → List ℕ → Option DominatorSetting → Action (State N) Failure (Unit {0})
  change_beneficiary dominator beneficiary signature none =
      put_setting dominator
        (record { beneficiary = some beneficiary; x25519_pubkey = []; rpc_endpoint = [] })
  change_beneficiary dominator beneficiary signature (some setting) = do
    validate_beneficiary setting.beneficiary signature beneficiary
    put_setting dominator (record setting { beneficiary = some beneficiary })

  pub dominator_set_beneficiary : Origin → ℕ → List ℕ → Action (State N) Failure (Unit {0})
  dominator_set_beneficiary origin beneficiary signature = do
    dominator ← ensure_signed origin
    require_dominator dominator
    setting ← gets (λ s. s.dominator_settings dominator)
    change_beneficiary dominator beneficiary signature setting

  pub register_broker : Origin → List ℕ → ℕ → Action (State N) Failure (Unit {0})
  register_broker origin rpc_endpoint beneficiary = do
    broker ← ensure_signed origin
    let requires = cf.broker_staking_threshold
    on_native (cf.asset.transfer_token broker cf.asset.native_token_id requires cf.system_account)
        >>= λ moved. do
          known ← gets (λ s. s.brokers broker)
          require (not (has known)) (of_pallet broker_already_registered)
          now ← gets (λ s. s.now)
          let entry : Broker = record {
            beneficiary = beneficiary;
            staked = requires;
            register_at = now;
            rpc_endpoint = rpc_endpoint;
          }
          modify (λ s. record s { brokers = at_1 broker (some entry) s.brokers })

  pub broker_set_rpc_endpoint : Origin → List ℕ → Action (State N) Failure (Unit {0})
  broker_set_rpc_endpoint origin rpc_endpoint = do
    broker ← ensure_signed origin
    known ← gets (λ s. s.brokers broker)
    entry ← or_raise known (of_pallet broker_not_found)
    modify (λ s. record s {
      brokers = at_1 broker (some (record entry { rpc_endpoint = rpc_endpoint })) s.brokers;
    })
