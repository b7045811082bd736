-- ===== src/Bridge/Tests.antt =====
-- Runs on a small bridge: three relayers, a threshold of two, and chain 1.
use fusotao_protocol.Base.{
  ℕ, ◌+◌, ◌^◌, ◌<◌, ◌≡◌, refl, true, false, none, some, List, [], ◌∷◌, ◌++◌, ◌==◌, length,
  if◌then◌else◌, arith, replicate,
}
use fusotao_protocol.Base.Result.{Result, ok}
use fusotao_protocol.Support.ResourceId.{IdError, derive_resource_id, decode_resource_id}
use fusotao_protocol.Support.ResourceId.RoundTrip.{decode_resource_id-derive_resource_id}
use fusotao_protocol.Token.Types.{root, unsigned, signed}
use fusotao_protocol.Bridge.Types.{initiated, approved, rejected, ProposalVotes, Runtime, State}
use fusotao_protocol.Bridge.Votes.{try_to_complete}
use fusotao_protocol.Bridge.Transfers.{bump_nonce}
use fusotao_protocol.Bridge.Rejection.{try_to_complete-hopeless}
use fusotao_protocol.Bridge.Ballots.{Executes}
use fusotao_protocol.Bridge.History.{
  relayer, no_relayer, fungible, BridgeCall, administers, acknowledges, rejects, transfers, blocks,
  step, run,
}
use fusotao_protocol.Bridge.History.Final.{step-Executes, run-decided}
use fusotao_protocol.Bridge.History.Sound.{IsSoundBridge, run-IsSoundBridge}
use fusotao_protocol.Bridge.History.Replay.{transfers-fresh}

-- The rest of the chain is a number here, and a call adds to it.
abbrev small_runtime : Runtime ℕ
small_runtime = record {
  chain_id = 42;
  proposal_lifetime = 100;
  native_resource_id = 7 ∷ [];
  block_numbers = 2 ^ 32;
  overflow_checks = true;
  is_admin = λ origin. elim origin [ root ↦ true | unsigned ↦ false | signed who ↦ false ];
  asset_id_by_name = λ chain contract n. some 1;
  dispatch = λ call n. (ok tt, n + call);
}

abbrev decided_votes : ProposalVotes
decided_votes = record {
  votes_for = 10 ∷ 11 ∷ [];
  votes_against = [];
  status = approved;
  expiry = 50;
}

-- Proposal 5 of nonce 2 is decided.
abbrev small_bridge : State ℕ
small_bridge = record {
  chain_nonces = λ c. if c == 1 then some 6 else none;
  relayer_threshold = 2;
  relayers = 10 ∷ 11 ∷ 12 ∷ [];
  relayer_count = 3;
  votes = λ c n p.
      if c == 1
      then (if n == 2 then (if p == 5 then some decided_votes else none) else none)
      else none;
  resources = λ id. some [];
  now = 20;
  events = [];
  rest = 0;
}

small_bridge-IsSound : IsSoundBridge small_bridge
small_bridge-IsSound = record {
  positive = omega arith;
  distinct = (refl, (refl, (refl, tt)));
  counted = refl;
  fair = λ c n p v h. ground arith;
}

abbrev some_calls : List BridgeCall
some_calls =
    acknowledges (signed 10) 3 1 (7 ∷ []) [] 9
    ∷ acknowledges (signed 11) 3 1 (7 ∷ []) [] 9
    ∷ rejects (signed 12) 3 1 (7 ∷ []) 9
    ∷ acknowledges (signed 12) 2 1 (7 ∷ []) [] 5
    ∷ administers root (no_relayer 12)
    ∷ administers root (relayer 13)
    ∷ blocks 30
    ∷ transfers (fungible 1 (7 ∷ []) (1 ∷ []) 1000)
    ∷ []

run-IsSoundBridge_example : IsSoundBridge (run small_runtime some_calls small_bridge)
run-IsSoundBridge_example =
    run-IsSoundBridge small_runtime some_calls small_bridge (omega arith) small_bridge-IsSound

run-decided_example : (run small_runtime some_calls small_bridge).votes 1 2 5 ≡ some decided_votes
run-decided_example =
    run-decided small_runtime some_calls 1 2 5 decided_votes small_bridge refl refl

step-Executes_example :
    Executes small_runtime small_bridge
      (step small_runtime (acknowledges (signed 10) 3 1 (7 ∷ []) [] 9) small_bridge)
step-Executes_example =
    step-Executes small_runtime (acknowledges (signed 10) 3 1 (7 ∷ []) [] 9) small_bridge

small_bump : (bump_nonce small_runtime 1 small_bridge).0 ≡ ok 7
unfolding bump_nonce
small_bump = refl

small_bump_again :
    (bump_nonce small_runtime 1
      (run small_runtime (blocks 3 ∷ []) (bump_nonce small_runtime 1 small_bridge).1)).0
    ≡ ok 8
unfolding bump_nonce run step
small_bump_again = refl

transfers-fresh_example : 7 < 8
transfers-fresh_example =
    transfers-fresh small_runtime refl 1 7 8 (blocks 3 ∷ []) small_bridge small_bump
      small_bump_again

-- Two of three relayers are against, and two are needed.
abbrev opposed : ProposalVotes
opposed = record { votes_for = []; votes_against = 10 ∷ 11 ∷ []; status = initiated; expiry = 50 }

small_rejected :
    try_to_complete true 2 3 opposed ≡ ok (record opposed { status = rejected }, rejected)
unfolding try_to_complete
small_rejected = refl

try_to_complete-hopeless_example : length ((record opposed { votes_for = 12 ∷ [] }).votes_for) < 2
try_to_complete-hopeless_example =
    try_to_complete-hopeless true 2 (10 ∷ 11 ∷ 12 ∷ []) opposed
      (record opposed { status = rejected }) (record opposed { votes_for = 12 ∷ [] }) (omega arith)
      small_rejected (refl, (refl, (refl, tt))) (refl, (refl, (refl, tt))) refl
      (λ x h. ground arith)

-- Two bytes of a contract, the tag 1 and the chain 258.
abbrev small_id : List ℕ
small_id = 2 ∷ replicate 26 0 ++ 170 ∷ 187 ∷ 1 ∷ 2 ∷ 1 ∷ []

small_derived : derive_resource_id 258 1 (170 ∷ 187 ∷ []) ≡ ok small_id
unfolding derive_resource_id
small_derived = refl

decode_resource_id-derive_resource_id_example :
    let r : Result IdError (ℕ × ℕ × List ℕ) = decode_resource_id small_id in
    r ≡ ok (258, 1, 170 ∷ 187 ∷ [])
decode_resource_id-derive_resource_id_example =
    decode_resource_id-derive_resource_id 258 1 (170 ∷ 187 ∷ []) small_id small_derived
