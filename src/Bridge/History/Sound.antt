-- ===== src/Bridge/History/Sound.antt =====
-- The invariant of pallet-chainbridge's storage over its calls.
use fusotao_protocol.Base.{
  ℕ, ◌+◌, ◌<◌, ◌≤◌, ◌≡◌, inl, inr, sym, ◌∙◌, ap, Bool, true, false, List, [], ◌∷◌, length, arith,
}
use fusotao_protocol.Token.Types.{Origin}
use fusotao_protocol.Bridge.Types.{Runtime, State}
use fusotao_protocol.Bridge.Votes.{u32_mod}
use fusotao_protocol.Bridge.Admin.{
  set_relayer_threshold, register_resource, unregister_resource, whitelist, register_relayer,
  unregister_relayer,
}
use fusotao_protocol.Bridge.Voting.{commit_vote, try_resolve_proposal}
use fusotao_protocol.Bridge.Transfers.{
  bump_nonce, transfer_fungible, transfer_nonfungible, transfer_generic,
}
use fusotao_protocol.Bridge.Calls.{
  set_threshold, set_resource, remove_resource, whitelist_chain, add_relayer, remove_relayer,
}
use fusotao_protocol.Bridge.Relayers.{IsDistinct, without-IsDistinct, length-without}
use fusotao_protocol.Bridge.Effects.{
  IsVote, AllFair, commit_vote-IsVote, commit_vote-AllFair, try_resolve_proposal-IsVote,
  try_resolve_proposal-AllFair,
}
use fusotao_protocol.Bridge.Ballots.{after_vote, vote-cases}
use fusotao_protocol.Bridge.History.{
  AdminCall, threshold, resource, no_resource, chain, relayer, no_relayer, TransferCall, fungible,
  nonfungible, generic, BridgeCall, administers, acknowledges, rejects, evaluates, transfers,
  blocks, administer, send, step, run,
}
use fusotao_protocol.Bridge.History.Quiet.{administer-IsQuiet, send-IsQuiet, check_resource-kept}
use fusotao_protocol.Bridge.History.Final.{
  noted, acknowledges-vote, rejects-vote, evaluates-resolve,
}

-- The threshold asks for a vote at least, the relayers are counted, and no votes of a proposal count
-- anybody twice.
pub record IsSoundBridge {N : Type 0} (s : State N) : Type 0 where
  pub positive : 0 < s.relayer_threshold
  pub distinct : IsDistinct s.relayers
  pub counted : s.relayer_count ≡ length s.relayers
  pub fair : AllFair s

module _ {N : Type 0} (rt : Runtime N) where
  vote-IsSound : {s s' : State N} → IsVote s s' → AllFair s' → IsSoundBridge s → IsSoundBridge s'
  vote-IsSound kept fair' v = record {
    positive = ground (arith, kept.threshold_kept, v.positive);
    distinct = rw kept.relayers_kept v.distinct;
    counted = rw (kept.count_kept, kept.relayers_kept) v.counted;
    fair = fair';
  }

  resolve-IsSound :
      (nonce src_id prop : ℕ) (s : State N)
      → IsSoundBridge s
      → IsSoundBridge (try_resolve_proposal rt nonce src_id prop s).1
  resolve-IsSound nonce src_id prop s v =
      vote-IsSound (try_resolve_proposal-IsVote rt nonce src_id prop s)
        (try_resolve_proposal-AllFair rt nonce src_id prop s v.fair) v

  ballot-IsSound :
      (who nonce src_id prop : ℕ) (in_favour : Bool) (s : State N)
      → IsSoundBridge s
      → IsSoundBridge (after_vote rt who nonce src_id prop in_favour s)
  ballot-IsSound who nonce src_id prop in_favour s v =
      let v' =
        vote-IsSound (commit_vote-IsVote rt who nonce src_id prop in_favour s)
          (commit_vote-AllFair rt who nonce src_id prop in_favour s v.fair) v in
      elim (vote-cases rt who nonce src_id prop in_favour s) [
        | inl failed ↦ rw failed v'
        | inr passed ↦ rw passed (resolve-IsSound nonce src_id prop _ v')
      ]

  ballot-count :
      (who nonce src_id prop : ℕ) (in_favour : Bool) (s : State N)
      → (after_vote rt who nonce src_id prop in_favour s).relayer_count ≡ s.relayer_count
  ballot-count who nonce src_id prop in_favour s =
      let cast = (commit_vote rt who nonce src_id prop in_favour s).1 in
      let first = (commit_vote-IsVote rt who nonce src_id prop in_favour s).count_kept in
      elim (vote-cases rt who nonce src_id prop in_favour s) [
        | inl failed ↦ ap (λ x. x.relayer_count) failed ∙ first
        | inr passed ↦
            ap (λ x. x.relayer_count) passed
            ∙ (try_resolve_proposal-IsVote rt nonce src_id prop cast).count_kept
            ∙ first
      ]

  administer-counts :
      (origin : Origin) (a : AdminCall) (s : State N)
      → s.relayer_count + 1 < u32_mod
      → IsSoundBridge s
      → let s' = (administer rt origin a s).1 in
        (0 < s'.relayer_threshold)
        × IsDistinct s'.relayers
        × (s'.relayer_count ≡ length s'.relayers)
        × (s'.relayer_count ≤ s.relayer_count + 1)
  unfolding administer set_threshold set_resource remove_resource whitelist_chain add_relayer
      remove_relayer set_relayer_threshold register_resource unregister_resource whitelist
      register_relayer unregister_relayer
  administer-counts origin (threshold n) s room v =
      ground (arith, v.positive, v.counted, v.distinct)
  administer-counts origin (resource id method) s room v =
      ground (arith, check_resource-kept rt id s, v.positive, v.counted, v.distinct)
  administer-counts origin (no_resource id) s room v =
      ground (arith, v.positive, v.counted, v.distinct)
  administer-counts origin (chain id) s room v = ground (arith, v.positive, v.counted, v.distinct)
  administer-counts origin (relayer who) s room v =
      ground (arith, v.positive, v.counted, v.distinct)
  administer-counts origin (no_relayer who) s room v = ground (
    arith,
    v.positive,
    v.counted,
    v.distinct,
    without-IsDistinct who s.relayers v.distinct,
    length-without who s.relayers v.distinct,
  )

  send-counts :
      (t : TransferCall) (s : State N)
      → let s' = (send rt t s).1 in
        (s'.relayer_threshold ≡ s.relayer_threshold)
        × (s'.relayers ≡ s.relayers)
        × (s'.relayer_count ≡ s.relayer_count)
  unfolding send transfer_fungible transfer_nonfungible transfer_generic bump_nonce
  send-counts (fungible dest_id resource_id to amount) s = ground arith
  send-counts (nonfungible dest_id resource_id token_id to metadata) s = ground arith
  send-counts (generic dest_id resource_id metadata) s = ground arith

  all_fair : (s s' : State N) → s'.votes ≡ s.votes → AllFair s → AllFair s'
  all_fair s s' same fair c n p v h = fair c n p v (ap (λ f. f c n p) (sym same) ∙ h)

  step-IsSound :
      (c : BridgeCall) (s : State N)
      → s.relayer_count + 1 < u32_mod
      → IsSoundBridge s
      → IsSoundBridge (step rt c s) × ((step rt c s).relayer_count ≤ s.relayer_count + 1)
  unfolding step
  step-IsSound (administers origin a) s room v =
      let (positive, distinct, counted, few) = administer-counts origin a s room v in
      (
        record {
          positive = positive;
          distinct = distinct;
          counted = counted;
          fair =
              all_fair s (administer rt origin a s).1 (administer-IsQuiet rt origin a s).0 v.fair;
        },
        few,
      )
  step-IsSound (transfers t) s room v =
      let (threshold_kept, relayers_kept, count_kept) = send-counts t s in
      (
        record {
          positive = ground (arith, threshold_kept, v.positive);
          distinct = rw relayers_kept v.distinct;
          counted = rw (count_kept, relayers_kept) v.counted;
          fair = all_fair s (send rt t s).1 (send-IsQuiet rt t s).0 v.fair;
        },
        omega (arith, count_kept),
      )
  step-IsSound (blocks n) s room v = (
    record { positive = v.positive; distinct = v.distinct; counted = v.counted; fair = v.fair },
    omega arith,
  )
  step-IsSound (acknowledges origin nonce src_id r_id evm_hash call) s room v =
      elim (acknowledges-vote rt origin nonce src_id r_id evm_hash call s) [
        | inl same ↦ rw same (v, omega arith)
        | inr (who, e) ↦
            let s' = noted rt src_id evm_hash nonce s in
            let v' : IsSoundBridge s' = record {
              positive = v.positive;
              distinct = v.distinct;
              counted = v.counted;
              fair = v.fair;
            } in
            rw e (
              ballot-IsSound who nonce src_id call true s' v',
              omega (arith, ballot-count who nonce src_id call true s'),
            )
      ]
  step-IsSound (rejects origin nonce src_id r_id call) s room v =
      elim (rejects-vote rt origin nonce src_id r_id call s) [
        | inl same ↦ rw same (v, omega arith)
        | inr (who, e) ↦ rw e (
          ballot-IsSound who nonce src_id call false s v,
          omega (arith, ballot-count who nonce src_id call false s),
        )
      ]
  step-IsSound (evaluates origin nonce src_id call) s room v =
      elim (evaluates-resolve rt origin nonce src_id call s) [
        | inl same ↦ rw same (v, omega arith)
        | inr e ↦ rw e (
          resolve-IsSound nonce src_id call s v,
          omega (arith, (try_resolve_proposal-IsVote rt nonce src_id call s).count_kept),
        )
      ]

  -- From a sound storage every sequence of calls, transfers and blocks leads to a sound one, if
  -- the relayers with the calls stay below 2 ^ 32: the threshold is positive, the relayers are
  -- distinct and their number is recorded, and the votes of each proposal, for and against
  -- together, are of distinct accounts.
  pub run-IsSoundBridge :
      (cs : List BridgeCall) (s : State N)
      → s.relayer_count + length cs < u32_mod
      → IsSoundBridge s
      → IsSoundBridge (run rt cs s)
  unfolding run
  run-IsSoundBridge [] s room v = v
  run-IsSoundBridge (c ∷ cs) s room v =
      let (v', few) = step-IsSound c s (omega arith) v in
      run-IsSoundBridge cs (step rt c s) (omega (arith, few)) v'
