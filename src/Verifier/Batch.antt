-- ===== src/Verifier/Batch.antt =====
-- A batch of proofs: `verify_batch`, `verify` and `verify_compress`.
-- Source: pallet-fuso-verifier/src/lib.rs.
pub mod Laws
pub mod Roots
mod Tests
use fusotao_protocol.Base.{ℕ, ◌*◌, List, [], ◌∷◌, not, ◌==◌, ◌&&◌, ltb, if◌then◌else◌}
use fusotao_protocol.Base.Result.{Result, ok, ok_or, ensure, ◌>>=◌ as ◌then◌}
use fusotao_protocol.Base.Action.{Action, pure, gets, modify, require, or_raise, lift, ◌>>=◌, ◌>>◌}
use fusotao_protocol.Base.Assoc.{entry}
use fusotao_protocol.Token.Types.{Origin}
use fusotao_protocol.Verifier.Types.{
  dominator_inactive, proof_decompress_error, proof_too_large, proof_format_error,
}
use fusotao_protocol.Verifier.State.{
  Failure, of_pallet, Trade, Proof, Dominator, State, Config, dominator_active, ensure_signed,
}
use fusotao_protocol.Verifier.Stakes.{get_dominator}
use fusotao_protocol.Verifier.Commands.{plus_in, verify_and_update}

-- `MAX_PROOF_SIZE`
abbrev pub max_proof_size : ℕ
max_proof_size = 10 * 1024 * 1024

-- The amounts and the volumes that were traded, by token.
abbrev pub Increments : Type 0
Increments = List (ℕ × (ℕ × ℕ))

module _ {N : Type 0} (cf : Config N) where
  -- A trade without an amount or a volume is not counted.
  unfoldable pub count_trade : ℕ → Trade → Increments → Result Failure Increments
  count_trade dominator_id trade incr =
      if not (trade.amount == 0) && not (trade.vol == 0)
      then entry
          (λ old. plus_in cf dominator_id old.0 trade.amount then λ b.
            plus_in cf dominator_id old.1 trade.vol then λ q. ok (b, q))
          (trade.amount, trade.vol) trade.token_id incr
      else ok incr

  -- The loop over the proofs: each starts from the root that the one before left.
  pub verify_proofs :
      ℕ → ℕ → List ℕ → Increments → List Proof → Action (State N) Failure (List ℕ × Increments)
  verify_proofs dominator_id start_from known_root incr [] = pure (known_root, incr)
  verify_proofs dominator_id start_from known_root incr (proof ∷ proofs) = do
    trade ← verify_and_update cf dominator_id known_root start_from proof
    incr' ← lift (count_trade dominator_id trade incr)
    verify_proofs dominator_id start_from trade.root incr' proofs

  pub set_prices : ℕ → Increments → Action (State N) Failure (Unit {0})
  set_prices now [] = pure tt
  set_prices now ((token_id, (amount, volume)) ∷ incr) = do
    modify (λ s. record s { native = cf.set_price token_id amount volume now s.native })
    set_prices now incr

  pub verify_batch : ℕ → Dominator → List Proof → Action (State N) Failure (Unit {0})
  verify_batch dominator_id dominator proofs = do
    done ← verify_proofs dominator_id dominator.start_from dominator.merkle_root [] proofs
    current_block ← gets (λ s. s.now)
    set_prices current_block done.1

  -- The dominator that signed, which must be active.
  abbrev pub active_dominator : ℕ → Action (State N) Failure Dominator
  active_dominator dominator_id = do
    dominator ← get_dominator dominator_id
    require (dominator.status == dominator_active) (of_pallet dominator_inactive)
    pure dominator

  pub verify : Origin → List Proof → Action (State N) Failure (Unit {0})
  verify origin proofs = do
    dominator_id ← ensure_signed origin
    dominator ← active_dominator dominator_id
    verify_batch dominator_id dominator proofs

  -- The proofs that were compressed; nothing is decompressed above the limit.
  unfoldable pub unpack : List ℕ → Result Failure (List Proof)
  unpack compressed_proofs =
      ok_or (cf.uncompressed_size compressed_proofs) (of_pallet proof_decompress_error)
      then λ sized. ensure (ltb sized.0 max_proof_size) (of_pallet proof_too_large) then λ small.
          ok_or (cf.decompress sized.1 sized.0) (of_pallet proof_decompress_error) then λ bytes.
          ok_or (cf.decode_proofs bytes) (of_pallet proof_format_error)

  pub verify_compress : Origin → List ℕ → Action (State N) Failure (Unit {0})
  verify_compress origin compressed_proofs = do
    dominator_id ← ensure_signed origin
    dominator ← active_dominator dominator_id
    proofs ← lift (unpack compressed_proofs)
    verify_batch dominator_id dominator proofs
