-- ===== src/Bridge/History/Replay.antt =====
-- The nonces of a chain only grow.
use fusotao_protocol.Base.{
  ℕ, ◌+◌, ◌<◌, ◌≤◌, ◌≡◌, ◌⊎◌, inl, inr, ap, ◌∙◌, Bool, true, false, Option, some, List, [], ◌∷◌,
  ◌==◌, ltb, Bool-cases, arith,
}
use fusotao_protocol.Base.Result.{ok}
use fusotao_protocol.Token.Types.{Origin}
use fusotao_protocol.Bridge.Types.{Runtime, State}
use fusotao_protocol.Bridge.Admin.{
  set_relayer_threshold, register_resource, unregister_resource, whitelist, register_relayer,
  unregister_relayer, chain_whitelisted,
}
use fusotao_protocol.Bridge.Voting.{commit_vote}
use fusotao_protocol.Bridge.Transfers.{
  u64_mod, bump_nonce, transfer_fungible, transfer_nonfungible, transfer_generic,
}
use fusotao_protocol.Bridge.Calls.{
  set_threshold, set_resource, remove_resource, whitelist_chain, add_relayer, remove_relayer,
}
use fusotao_protocol.Bridge.Effects.{commit_vote-IsVote, try_resolve_proposal-IsVote}
use fusotao_protocol.Bridge.Ballots.{after_vote, vote-cases}
use fusotao_protocol.Bridge.History.{
  AdminCall, threshold, resource, no_resource, chain, relayer, no_relayer, TransferCall, fungible,
  nonfungible, generic, BridgeCall, administers, acknowledges, rejects, evaluates, transfers,
  blocks, administer, send, step, run,
}
use fusotao_protocol.Bridge.History.Quiet.{check_resource-kept}
use fusotao_protocol.Bridge.History.Final.{
  noted, acknowledges-vote, rejects-vote, evaluates-resolve,
}

-- A chain stays on the list, and its nonce is no less.
abbrev pub Reaches : Option ℕ → ℕ → Type 0
Reaches o n = (m : ℕ) × (o ≡ some m) × (n ≤ m)

module _ {N : Type 0} (rt : Runtime N) (checked : rt.overflow_checks ≡ true) where
  administer-Reaches :
      (origin : Origin) (a : AdminCall) (id n : ℕ) (s : State N)
      → s.chain_nonces id ≡ some n
      → (administer rt origin a s).1.chain_nonces id ≡ some n
  unfolding administer set_threshold set_resource remove_resource whitelist_chain add_relayer
      remove_relayer set_relayer_threshold register_resource unregister_resource whitelist
      register_relayer unregister_relayer
  administer-Reaches origin (threshold k) id n s found = ground arith
  administer-Reaches origin (resource r method) id n s found =
      ground (arith, check_resource-kept rt r s)
  administer-Reaches origin (no_resource r) id n s found = ground arith
  administer-Reaches origin (chain c) id n s found = ground arith
  administer-Reaches origin (relayer who) id n s found = ground arith
  administer-Reaches origin (no_relayer who) id n s found = ground arith

  bump_nonce-Reaches :
      (dest_id id n : ℕ) (s : State N)
      → s.chain_nonces id ≡ some n
      → Reaches ((bump_nonce rt dest_id s).1.chain_nonces id) n
  unfolding bump_nonce
  bump_nonce-Reaches dest_id id n s found = elim (Bool-cases (id == dest_id)) [
    | inl same ↦ elim (Bool-cases (ltb (n + 1) u64_mod)) [
      | inl room ↦ (n + 1, ground arith, omega arith)
      | inr full ↦ (n, ground arith, omega arith)
    ]
    | inr other ↦ (n, ground arith, omega arith)
  ]

  abbrev destination : TransferCall → ℕ
  destination (fungible dest_id resource_id to amount) = dest_id
  destination (nonfungible dest_id resource_id token_id to metadata) = dest_id
  destination (generic dest_id resource_id metadata) = dest_id

  send-nonces :
      (t : TransferCall) (s : State N)
      → let s' = (send rt t s).1 in
        (s'.chain_nonces ≡ s.chain_nonces)
        ⊎ (s'.chain_nonces ≡ (bump_nonce rt (destination t) s).1.chain_nonces)
  unfolding send transfer_fungible transfer_nonfungible transfer_generic bump_nonce
  send-nonces (fungible dest_id resource_id to amount) s =
      elim (Bool-cases (chain_whitelisted dest_id s)) [
        | inl known ↦ inr (ground arith)
        | inr unknown ↦ inl (ground arith)
      ]
  send-nonces (nonfungible dest_id resource_id token_id to metadata) s =
      elim (Bool-cases (chain_whitelisted dest_id s)) [
        | inl known ↦ inr (ground arith)
        | inr unknown ↦ inl (ground arith)
      ]
  send-nonces (generic dest_id resource_id metadata) s =
      elim (Bool-cases (chain_whitelisted dest_id s)) [
        | inl known ↦ inr (ground arith)
        | inr unknown ↦ inl (ground arith)
      ]

  -- Nonces that are kept reach what they reached.
  kept-Reaches : (f f' : ℕ → Option ℕ) (id n : ℕ) → f' ≡ f → f id ≡ some n → Reaches (f' id) n
  kept-Reaches f f' id n same found = (n, ap (λ g. g id) same ∙ found, omega arith)

  ballot-nonces :
      (who nonce src_id prop : ℕ) (in_favour : Bool) (s : State N)
      → (after_vote rt who nonce src_id prop in_favour s).chain_nonces ≡ s.chain_nonces
  ballot-nonces who nonce src_id prop in_favour s =
      let cast = (commit_vote rt who nonce src_id prop in_favour s).1 in
      let first = (commit_vote-IsVote rt who nonce src_id prop in_favour s).nonces_kept in
      elim (vote-cases rt who nonce src_id prop in_favour s) [
        | inl failed ↦ ap (λ x. x.chain_nonces) failed ∙ first
        | inr passed ↦
            ap (λ x. x.chain_nonces) passed
            ∙ (try_resolve_proposal-IsVote rt nonce src_id prop cast).nonces_kept
            ∙ first
      ]

  step-Reaches :
      (c : BridgeCall) (id n : ℕ) (s : State N)
      → s.chain_nonces id ≡ some n
      → Reaches ((step rt c s).chain_nonces id) n
  unfolding step
  step-Reaches (administers origin a) id n s found =
      (n, administer-Reaches origin a id n s found, omega arith)
  step-Reaches (transfers t) id n s found = elim (send-nonces t s) [
    | inl same ↦ kept-Reaches _ _ id n same found
    | inr bumped ↦
        let (m, e, more) = bump_nonce-Reaches (destination t) id n s found in
        (m, ap (λ f. f id) bumped ∙ e, more)
  ]
  step-Reaches (blocks k) id n s found = (n, found, omega arith)
  step-Reaches (acknowledges origin nonce src_id r_id evm_hash call) id n s found =
      elim (acknowledges-vote rt origin nonce src_id r_id evm_hash call s) [
        | inl same ↦ kept-Reaches _ _ id n (ap (λ x. x.chain_nonces) same) found
        | inr (who, e) ↦
            kept-Reaches _ _ id n
              (ap (λ x. x.chain_nonces) e
                ∙ ballot-nonces who nonce src_id call true (noted rt src_id evm_hash nonce s))
              found
      ]
  step-Reaches (rejects origin nonce src_id r_id call) id n s found =
      elim (rejects-vote rt origin nonce src_id r_id call s) [
        | inl same ↦ kept-Reaches _ _ id n (ap (λ x. x.chain_nonces) same) found
        | inr (who, e) ↦
            kept-Reaches _ _ id n
              (ap (λ x. x.chain_nonces) e ∙ ballot-nonces who nonce src_id call false s) found
      ]
  step-Reaches (evaluates origin nonce src_id call) id n s found =
      elim (evaluates-resolve rt origin nonce src_id call s) [
        | inl same ↦ kept-Reaches _ _ id n (ap (λ x. x.chain_nonces) same) found
        | inr e ↦
            kept-Reaches _ _ id n
              (ap (λ x. x.chain_nonces) e
                ∙ (try_resolve_proposal-IsVote rt nonce src_id call s).nonces_kept)
              found
      ]

  run-Reaches :
      (cs : List BridgeCall) (id n : ℕ) (s : State N)
      → s.chain_nonces id ≡ some n
      → Reaches ((run rt cs s).chain_nonces id) n
  unfolding run
  run-Reaches [] id n s found = (n, found, omega arith)
  run-Reaches (c ∷ cs) id n s found =
      let (m, e, more) = step-Reaches c id n s found in
      let (k, e', most) = run-Reaches cs id m (step rt c s) e in (k, e', omega (arith, more, most))

  bump_nonce-stores :
      (dest_id n : ℕ) (s : State N)
      → (bump_nonce rt dest_id s).0 ≡ ok n
      → (bump_nonce rt dest_id s).1.chain_nonces dest_id ≡ some n
  unfolding bump_nonce
  bump_nonce-stores dest_id n s h = ground arith

  bump_nonce-next :
      (dest_id m n : ℕ) (s : State N)
      → s.chain_nonces dest_id ≡ some m
      → (bump_nonce rt dest_id s).0 ≡ ok n
      → n ≡ m + 1
  unfolding bump_nonce
  bump_nonce-next dest_id m n s known h = ground arith

  -- In a build with overflow checks, of two nonces that are taken for transfers to one chain the
  -- later is the higher, whatever calls, transfers and blocks come in between.
  pub transfers-fresh :
      (dest_id n n' : ℕ) (between : List BridgeCall) (s : State N)
      → (bump_nonce rt dest_id s).0 ≡ ok n
      → (bump_nonce rt dest_id (run rt between (bump_nonce rt dest_id s).1)).0 ≡ ok n'
      → n < n'
  transfers-fresh dest_id n n' between s first second =
      let s' = (bump_nonce rt dest_id s).1 in
      let (m, e, more) = run-Reaches between dest_id n s' (bump_nonce-stores dest_id n s first) in
      omega (arith, more, bump_nonce-next dest_id m n' (run rt between s') e second)
