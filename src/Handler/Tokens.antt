-- ===== src/Handler/Tokens.antt =====
-- Transfers out of the chain over pallet-fuso-token.
-- Source: pallet-chainbridge-handler/src/lib.rs; pallet-fuso-token/src/lib.rs, `Token`, `Mutate`,
-- `BalanceConversion`.
use mathlib.Core.Path.{subst}
use fusotao_protocol.Base.{ℕ, sym, ◌≡◌, refl, Option-cases, arith, ◌-◌, Bool-cases, inl, inr, List}
use fusotao_protocol.Base.Result.{Result, ok, err, panicked, Result-cases}
use fusotao_protocol.Base.Runs.{keep_ok-holds, bind_result-holds}
use fusotao_protocol.Token.Types as Tokens
use fusotao_protocol.Token.Accounts.{free_balance, transfer_token}
use fusotao_protocol.Token.Issuance.{mint_into, burn_from}
use fusotao_protocol.Token.Queries.{to_asset_balance}
use fusotao_protocol.Token.Sound.{IsSound, IsTransfer-IsSound}
use fusotao_protocol.Token.Accounts.Transfer.{transfer_token-IsTransfer}
use fusotao_protocol.Token.Issuance.Burning.{do_burn-IsSound}
use fusotao_protocol.Handler.Types.{
  Error, Rest, of_tokens, Chain, Fungibles, Config, on_rest, on_tokens, is_native_resource,
}
use fusotao_protocol.Support.ResourceId.{decode_resource_id}
use fusotao_protocol.Token.Types.{Origin, root, unsigned, signed}
use fusotao_protocol.Bridge.Admin.{chain_whitelisted}
use fusotao_protocol.Bridge.Transfers.{transfer_fungible, bump_nonce}
use fusotao_protocol.Handler.Outgoing.{
  charge, check_limit, move_token, announce, do_lock, do_burn_assets, transfer_out,
}

-- An error of the token pallet, as the error of the call.
abbrev pub from_tokens : {S A : Type 0} → Result Tokens.Error A × S → Result Error A × S
from_tokens (ok a, s) = (ok a, s)
from_tokens (err e, s) = (err (of_tokens e), s)
from_tokens (panicked, s) = (panicked, s)

from_tokens-state : {S A : Type 0} (r : Result Tokens.Error A × S) → (from_tokens r).1 ≡ r.1
from_tokens-state (ok a, s) = refl
from_tokens-state (err e, s) = refl
from_tokens-state (panicked, s) = refl

-- A result of the token pallet, as one of the call.
abbrev pub as_result : {A : Type 0} → Result Tokens.Error A → Result Error A
as_result (ok a) = ok a
as_result (err e) = err (of_tokens e)
as_result panicked = panicked

module _ {M : Type 0} (rt : Tokens.Runtime M) where
  -- The token pallet as `T::Fungibles`.
  abbrev pub fungibles_of : Fungibles (Tokens.State M)
  fungibles_of = record {
    native_token_id = rt.native_token_id;
    free_balance = free_balance rt;
    transfer_token = λ who token amount to s. from_tokens (transfer_token rt who token amount to s);
    burn_from = λ token who amount s. from_tokens (burn_from rt token who amount s);
    mint_into = λ token who amount s. from_tokens (mint_into rt token who amount s);
    to_asset_balance = λ amount token s. as_result (to_asset_balance rt amount token s);
  }

-- What the calls on the tokens and the announcement keep, a transfer out keeps.
module _ {N : Type 0} (cf : Config N) (P : Chain N → Type 0)
    (moves : (who token amount to : ℕ) (s : Chain N)
      → P s
      → P (move_token cf who token amount to s).1)
    (burns : (who token amount : ℕ) (s : Chain N)
      → P s
      → P (on_rest (on_tokens (cf.fungibles.burn_from token who amount)) s).1)
    (announces : (dest_id : ℕ) (r_id recipient : List ℕ) (amount : ℕ) (s : Chain N)
      → P s
      → P (announce cf dest_id r_id recipient amount s).1) where
  do_lock-holds :
      (sender amount : ℕ) (r_id recipient : List ℕ) (dest_id : ℕ) (s : Chain N)
      → P s
      → P (do_lock cf sender amount r_id recipient dest_id s).1
  unfolding do_lock
  do_lock-holds sender amount r_id recipient dest_id s h =
      let token = cf.fungibles.native_token_id in
      elim (Result-cases (check_limit cf amount s.rest)) [
        | inr (inl (x, e)) ↦ rw e h
        | inr (inr e) ↦ rw e h
        | inl (u, e) ↦ rw e (elim (Result-cases (charge cf token amount s.rest)) [
          | inr (inl (x, e1)) ↦ rw e1 h
          | inr (inr e1) ↦ rw e1 h
          | inl (fee, e1) ↦ rw e1 (
              keep_ok-holds P s _ h (
                bind_result-holds P _ (move_token cf sender token fee cf.treasury_account s)
                  (moves sender token fee cf.treasury_account s h)
                  (λ paid s1 h1.
                    bind_result-holds P _
                      (move_token cf sender token (amount - fee) cf.bridge_account s1)
                      (moves sender token (amount - fee) cf.bridge_account s1 h1)
                      (λ locked s2 h2. announces dest_id r_id recipient (amount - fee) s2 h2))))
        ])
      ]

  do_burn_assets-holds :
      (who amount : ℕ) (r_id recipient : List ℕ) (dest_id : ℕ) (s : Chain N)
      → P s
      → P (do_burn_assets cf who amount r_id recipient dest_id s).1
  unfolding do_burn_assets
  do_burn_assets-holds who amount r_id recipient dest_id s h =
      elim (Result-cases {E = Error} (decode_resource_id r_id)) [
        | inr (inl (x, e)) ↦ rw e h
        | inr (inr e) ↦ rw e h
        | inl (decoded, e) ↦
            rw e (elim (Option-cases (cf.bridge.asset_id_by_name decoded.0 decoded.2 s.rest)) [
              | inl e1 ↦ rw e1 h
              | inr (token, e1) ↦ rw e1 (elim (Result-cases (charge cf token amount s.rest)) [
                | inr (inl (x, e2)) ↦ rw e2 h
                | inr (inr e2) ↦ rw e2 h
                | inl (fee, e2) ↦ rw e2 (
                    keep_ok-holds P s _ h (
                      bind_result-holds P _ (move_token cf who token fee cf.treasury_account s)
                        (moves who token fee cf.treasury_account s h)
                        (λ paid s1 h1.
                          bind_result-holds P _
                            (on_rest (on_tokens (cf.fungibles.burn_from token who (amount - fee)))
                              s1)
                            (burns who token (amount - fee) s1 h1)
                            (λ burned s2 h2.
                              announces dest_id r_id recipient (amount - fee) s2 h2))))
              ])
            ])
      ]

  pub transfer_out-holds :
      (origin : Origin) (amount : ℕ) (r_id recipient : List ℕ) (dest_id : ℕ) (s : Chain N)
      → P s
      → P (transfer_out cf origin amount r_id recipient dest_id s).1
  unfolding transfer_out
  transfer_out-holds root amount r_id recipient dest_id s h = h
  transfer_out-holds unsigned amount r_id recipient dest_id s h = h
  transfer_out-holds (signed who) amount r_id recipient dest_id s h =
      elim (Bool-cases (chain_whitelisted dest_id s)) [
        | inr e ↦ rw e h
        | inl e ↦ rw e (elim (Result-cases (is_native_resource cf r_id)) [
          | inr (inl (x, e1)) ↦ rw e1 h
          | inr (inr e1) ↦ rw e1 h
          | inl (native, e1) ↦ rw e1 (elim (Bool-cases native) [
            | inl e2 ↦ rw e2 (do_lock-holds who amount r_id recipient dest_id s h)
            | inr e2 ↦ rw e2 (do_burn_assets-holds who amount r_id recipient dest_id s h)
          ])
        ])
      ]

-- The announcement leaves all but the bridge as it was.
announce-rest :
    {N : Type 0} (cf : Config N) (dest_id : ℕ) (r_id recipient : List ℕ) (amount : ℕ) (s : Chain N)
    → (announce cf dest_id r_id recipient amount s).1.rest ≡ s.rest
unfolding transfer_fungible bump_nonce
announce-rest cf dest_id r_id recipient amount s = ground arith

module _ {M : Type 0} (rt : Tokens.Runtime M) (cf : Config (Tokens.State M)) where
  -- The handler over the token pallet.
  abbrev pub over_tokens : Config (Tokens.State M)
  over_tokens = record cf { fungibles = fungibles_of rt }

  abbrev pub tokens_in : Chain (Tokens.State M) → Tokens.State M
  tokens_in s = s.rest.verifier.native

  abbrev HasSoundTokens : Chain (Tokens.State M) → Type 0
  HasSoundTokens s = IsSound (tokens_in s)

  move_token-IsSound :
      (who token amount to : ℕ) (s : Chain (Tokens.State M))
      → HasSoundTokens s
      → HasSoundTokens (move_token over_tokens who token amount to s).1
  move_token-IsSound who token amount to s h =
      let n = tokens_in s in
      rw (from_tokens-state (transfer_token rt who token amount to n))
        (IsTransfer-IsSound (transfer_token-IsTransfer rt who token amount to n h.keyed) h)

  burn_token-IsSound :
      (who token amount : ℕ) (s : Chain (Tokens.State M))
      → HasSoundTokens s
      → HasSoundTokens (on_rest (on_tokens ((fungibles_of rt).burn_from token who amount)) s).1
  burn_token-IsSound who token amount s h =
      let n = tokens_in s in
      rw (from_tokens-state (burn_from rt token who amount n))
        (unfold burn_from in do_burn-IsSound rt token who amount n h)

  announce-IsSound :
      (dest_id : ℕ) (r_id recipient : List ℕ) (amount : ℕ) (s : Chain (Tokens.State M))
      → HasSoundTokens s
      → HasSoundTokens (announce over_tokens dest_id r_id recipient amount s).1
  announce-IsSound dest_id r_id recipient amount s h =
      let kept = announce-rest over_tokens dest_id r_id recipient amount s in
      subst (λ (rest : Rest (Tokens.State M)). IsSound rest.verifier.native) (sym kept) h

  -- Over the token pallet, a transfer out of the chain, whatever it ends in, keeps the storage of
  -- the tokens sound: no account is stored twice, the accounts hold no more of a token than its
  -- issuance, which fits `u128`, the identifiers from `next_token_id` on are free, and no FND10
  -- token is minted.
  pub transfer_out-IsSound :
      (origin : Origin) (amount : ℕ) (r_id recipient : List ℕ) (dest_id : ℕ)
      (s : Chain (Tokens.State M))
      → IsSound (tokens_in s)
      → IsSound (tokens_in (transfer_out over_tokens origin amount r_id recipient dest_id s).1)
  transfer_out-IsSound origin amount r_id recipient dest_id s h =
      transfer_out-holds over_tokens HasSoundTokens move_token-IsSound burn_token-IsSound
        announce-IsSound origin amount r_id recipient dest_id s h
