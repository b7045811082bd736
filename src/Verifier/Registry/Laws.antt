-- ===== src/Verifier/Registry/Laws.antt =====
-- What the settings and the brokers keep.
use fusotao_protocol.Base.{ℕ, Option, none, some, List, arith}
use fusotao_protocol.Token.Types.{Origin, root, unsigned, signed}
use fusotao_protocol.Verifier.State.{State, Config, DominatorSetting}
use fusotao_protocol.Verifier.Reserving.Laws.{KeepsStakes}
use fusotao_protocol.Verifier.Registry.{
  dominator_set_pubkey, dominator_set_rpc_endpoint, dominator_set_beneficiary, change_beneficiary,
  validate_beneficiary, register_broker, broker_set_rpc_endpoint,
}

module _ {N : Type 0} (cf : Config N) where
  pub dominator_set_pubkey-KeepsStakes :
      (origin : Origin) (key : List ℕ) (s : State N)
      → KeepsStakes s (dominator_set_pubkey cf origin key s).1
  unfolding dominator_set_pubkey
  dominator_set_pubkey-KeepsStakes origin key s = ground arith

  pub dominator_set_rpc_endpoint-KeepsStakes :
      (origin : Origin) (url : List ℕ) (s : State N)
      → KeepsStakes s (dominator_set_rpc_endpoint cf origin url s).1
  unfolding dominator_set_rpc_endpoint
  dominator_set_rpc_endpoint-KeepsStakes origin url s = ground arith

  validate_beneficiary-KeepsStakes :
      (old : Option ℕ) (signature : List ℕ) (new : ℕ) (s : State N)
      → KeepsStakes s (validate_beneficiary cf old signature new s).1
  unfolding validate_beneficiary
  validate_beneficiary-KeepsStakes none signature new s = ground arith
  validate_beneficiary-KeepsStakes (some old) signature new s = ground arith

  change_beneficiary-KeepsStakes :
      (id new : ℕ) (signature : List ℕ) (setting : Option DominatorSetting) (s : State N)
      → KeepsStakes s (change_beneficiary cf id new signature setting s).1
  change_beneficiary-KeepsStakes id new signature none s = ground arith
  change_beneficiary-KeepsStakes id new signature (some setting) s =
      ground (arith, validate_beneficiary-KeepsStakes setting.beneficiary signature new s)

  pub dominator_set_beneficiary-KeepsStakes :
      (origin : Origin) (new : ℕ) (signature : List ℕ) (s : State N)
      → KeepsStakes s (dominator_set_beneficiary cf origin new signature s).1
  unfolding dominator_set_beneficiary
  dominator_set_beneficiary-KeepsStakes root new signature s = ground arith
  dominator_set_beneficiary-KeepsStakes unsigned new signature s = ground arith
  dominator_set_beneficiary-KeepsStakes (signed id) new signature s =
      ground (arith, change_beneficiary-KeepsStakes id new signature (s.dominator_settings id) s)

  pub register_broker-KeepsStakes :
      (origin : Origin) (url : List ℕ) (beneficiary : ℕ) (s : State N)
      → KeepsStakes s (register_broker cf origin url beneficiary s).1
  unfolding register_broker
  register_broker-KeepsStakes origin url beneficiary s = ground arith

  pub broker_set_rpc_endpoint-KeepsStakes :
      (origin : Origin) (url : List ℕ) (s : State N)
      → KeepsStakes s (broker_set_rpc_endpoint cf origin url s).1
  unfolding broker_set_rpc_endpoint
  broker_set_rpc_endpoint-KeepsStakes origin url s = ground arith
