-- ===== src/Bridge/Transfers.antt =====
-- Transfers out of the chain, each under the next nonce of its destination.
-- Source: pallet-chainbridge/src/lib.rs, `bump_nonce` and the three transfers.
use fusotao_protocol.Base.{ℕ, ◌^◌, List, Option, none, some, ◌==◌, if◌then◌else◌}
use fusotao_protocol.Base.Words.{add_in}
use fusotao_protocol.Base.Action.{Action, pure, gets, modify, require, lift, ◌>>=◌, ◌>>◌}
use fusotao_protocol.Bridge.Types.{
  Error, chain_not_whitelisted, fungible_transfer, non_fungible_transfer, generic_transfer, Runtime,
  State, deposit_event,
}
use fusotao_protocol.Bridge.Admin.{chain_whitelisted}

abbrev pub u64_mod : ℕ
u64_mod = 2 ^ 64

abbrev pub or_zero : Option ℕ → ℕ
or_zero none = 0
or_zero (some n) = n

module _ {N : Type 0} (rt : Runtime N) where
  unfoldable pub bump_nonce : ℕ → Action (State N) Error ℕ
  bump_nonce id = do
    last ← gets (λ s. or_zero (s.chain_nonces id))
    nonce ← lift (add_in u64_mod rt.overflow_checks last 1)
    modify (λ s. record s { chain_nonces = λ c. if c == id then some nonce else s.chain_nonces c })
    pure nonce

  unfoldable pub transfer_fungible : ℕ → List ℕ → List ℕ → ℕ → Action (State N) Error (Unit {0})
  unfolding bump_nonce
  transfer_fungible dest_id resource_id to amount = do
    known ← gets (chain_whitelisted dest_id)
    require known chain_not_whitelisted
    nonce ← bump_nonce dest_id
    deposit_event (fungible_transfer dest_id nonce resource_id amount to)

  unfoldable pub transfer_nonfungible :
      ℕ → List ℕ → List ℕ → List ℕ → List ℕ → Action (State N) Error (Unit {0})
  unfolding bump_nonce
  transfer_nonfungible dest_id resource_id token_id to metadata = do
    known ← gets (chain_whitelisted dest_id)
    require known chain_not_whitelisted
    nonce ← bump_nonce dest_id
    deposit_event (non_fungible_transfer dest_id nonce resource_id token_id to metadata)

  unfoldable pub transfer_generic : ℕ → List ℕ → List ℕ → Action (State N) Error (Unit {0})
  unfolding bump_nonce
  transfer_generic dest_id resource_id metadata = do
    known ← gets (chain_whitelisted dest_id)
    require known chain_not_whitelisted
    nonce ← bump_nonce dest_id
    deposit_event (generic_transfer dest_id nonce resource_id metadata)
