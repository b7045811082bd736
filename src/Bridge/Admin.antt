-- ===== src/Bridge/Admin.antt =====
-- The administration of pallet-chainbridge: relayers, the threshold, chains and resources.
-- Source: pallet-chainbridge/src/lib.rs, "Utility methods" and "Admin methods".
use fusotao_protocol.Base.{
  ℕ, Bool, true, false, not, List, [], ◌∷◌, Option, none, some, ◌==◌, ltb, bytes_eq, if◌then◌else◌,
}
use fusotao_protocol.Base.Words.{add_in, sub_in}
use fusotao_protocol.Base.Action.{Action, pure, raise, gets, modify, require, lift, ◌>>=◌, ◌>>◌}
use fusotao_protocol.Token.Types.{Origin, root, unsigned, signed}
use fusotao_protocol.Bridge.Types.{
  Error, bad_origin, invalid_threshold, invalid_chain_id, chain_already_whitelisted,
  relayer_already_exists, relayer_invalid, Runtime, State, deposit_event, relayer_threshold_changed,
  relayer_added, relayer_removed,
}
use fusotao_protocol.Bridge.Types as BridgeTypes
use fusotao_protocol.Bridge.Votes.{u32_mod, contains}

abbrev pub ensure_signed : {S : Type 0} → Origin → Action S Error ℕ
ensure_signed (signed who) = pure who
ensure_signed root = raise bad_origin
ensure_signed unsigned = raise bad_origin

abbrev pub is_some : {A : Type 0} → Option A → Bool
is_some none = false
is_some (some a) = true

-- `Relayers::remove`
abbrev pub without : ℕ → List ℕ → List ℕ
without who [] = []
without who (x ∷ xs) = let rest = without who xs in if who == x then rest else x ∷ rest

module _ {N : Type 0} where
  abbrev pub is_relayer : ℕ → State N → Bool
  is_relayer who s = contains who s.relayers

  abbrev pub resource_exists : List ℕ → State N → Bool
  resource_exists id s = is_some (s.resources id)

  abbrev pub chain_whitelisted : ℕ → State N → Bool
  chain_whitelisted id s = is_some (s.chain_nonces id)

module _ {N : Type 0} (rt : Runtime N) where
  abbrev pub ensure_admin : Origin → Action (State N) Error (Unit {0})
  ensure_admin origin = require (rt.is_admin origin) bad_origin

  unfoldable pub set_relayer_threshold : ℕ → Action (State N) Error (Unit {0})
  set_relayer_threshold threshold = do
    require (ltb 0 threshold) invalid_threshold
    modify (λ s. record s { relayer_threshold = threshold })
    deposit_event (relayer_threshold_changed threshold)

  unfoldable pub register_resource : List ℕ → List ℕ → Action (State N) Error (Unit {0})
  register_resource id method =
      modify
        (λ s. record s { resources = λ j. if bytes_eq j id then some method else s.resources j })

  unfoldable pub unregister_resource : List ℕ → Action (State N) Error (Unit {0})
  unregister_resource id =
      modify (λ s. record s { resources = λ j. if bytes_eq j id then none else s.resources j })

  unfoldable pub whitelist : ℕ → Action (State N) Error (Unit {0})
  whitelist id = do
    require (not (id == rt.chain_id)) invalid_chain_id
    known ← gets (chain_whitelisted id)
    require (not known) chain_already_whitelisted
    modify (λ s. record s { chain_nonces = λ c. if c == id then some 0 else s.chain_nonces c })
    deposit_event (BridgeTypes.chain_whitelisted id)

  unfoldable pub register_relayer : ℕ → Action (State N) Error (Unit {0})
  register_relayer relayer = do
    known ← gets (is_relayer relayer)
    require (not known) relayer_already_exists
    modify (λ s. record s { relayers = relayer ∷ s.relayers })
    count ← gets (λ s. s.relayer_count)
    count' ← lift (add_in u32_mod rt.overflow_checks count 1)
    modify (λ s. record s { relayer_count = count' })
    deposit_event (relayer_added relayer)

  unfoldable pub unregister_relayer : ℕ → Action (State N) Error (Unit {0})
  unregister_relayer relayer = do
    known ← gets (is_relayer relayer)
    require known relayer_invalid
    modify (λ s. record s { relayers = without relayer s.relayers })
    count ← gets (λ s. s.relayer_count)
    count' ← lift (sub_in u32_mod rt.overflow_checks count 1)
    modify (λ s. record s { relayer_count = count' })
    deposit_event (relayer_removed relayer)
