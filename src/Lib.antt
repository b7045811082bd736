-- ===== src/Lib.antt =====
-- Verification of fusotao-protocol, the pallets of a chain on which matching engines settle trades.
--
-- The program and the files here:
-- * pallet-fuso-token/src/lib.rs keeps tokens and balances. Token/Types holds its storage as a
--   record (`Balances` as an association list with one entry for each token and account, `Tokens`,
--   `TokenByName` and `TokenByContract` as functions), its errors, events and configuration.
--   Token/Accounts models `transfer_token`, `reserve`, `unreserve`, `repatriate_reserved` and their
--   queries, Token/Issuance `create`, `do_mint` and `do_burn`, Token/Decimals `unify_decimals`,
--   Token/Calls the dispatchable calls, Token/Queries the traits Inspect, Token and the identifier
--   providers. The modules below these hold their proofs; Token/Sound states the invariant of the
--   storage, and Token/History runs sequences of calls over it.
-- * pallet-fuso-verifier/src/lib.rs checks the proofs of the matching engines, the dominators, and
--   keeps what is staked on them and hosted with them. The checks of one proof: Verifier/Leaf models
--   `MerkleLeaf`, Verifier/Accounts the comparison of a leaf with what is authorized on chain,
--   Verifier/AskBook and Verifier/Ask `verify_ask_limit`, in the parts that its comments name,
--   Verifier/BidBook and Verifier/Bid `verify_bid_limit`, Verifier/Cancel `verify_cancel`, and
--   Verifier/Moves the checks of transfers and of fees; Verifier/Sums says what leaves hold. The
--   pallet's storage is the record of Verifier/State: `Reserves`, `Receipts` and `Bonuses` are
--   functions, `Dominators` an association list, `Stakings` and `PendingUnstakings` dictionaries by
--   two numbers. Verifier/Reserving models `reserve`, `unreserve` and `clear`, Verifier/Seasons the
--   hook `on_initialize`, the shares of a season and what releases them, Verifier/Stakes `stake_on`,
--   `unstake_from` and their calls, Verifier/Hosting `authorize_to`, `revoke_from` and their calls,
--   Verifier/Registry dominators and brokers, Verifier/Commands `verify_and_update` command by
--   command, Verifier/Batch `verify_batch`, `verify` and `verify_compress`. Verifier/History runs
--   sequences of all calls and blocks.
-- * pallet-chainbridge/src/lib.rs lets relayers vote on calls that come from other chains, and
--   numbers the transfers that leave. Bridge/Types holds its storage, Bridge/Votes `ProposalVotes`,
--   Bridge/Admin the relayers, the threshold, the chains and the resources, Bridge/Voting the votes
--   and their resolution, Bridge/Transfers the transfers, Bridge/Calls the dispatchable calls.
--   Bridge/History runs sequences of all of these; the other modules there hold proofs. A proposed
--   call acts on the rest of the chain, which is a state of its own, and not on this pallet.
-- * pallet-chainbridge-handler/src/lib.rs moves tokens over the bridge: Handler/Types holds its
--   storage, Handler/Outgoing `transfer_out` with `do_lock` and `do_burn_assets`, Handler/Incoming
--   `transfer_in` and the calls of the admin. A transfer out runs on the storage of the bridge,
--   whose `rest` is the handler's storage, which has the verifier's storage in it, and that one the
--   tokens; a transfer in is what a proposal of the bridge executes on this `rest`. Handler/Tokens
--   puts the token pallet behind the handler, and Verifier/Reserving/Undo behind the verifier.
-- * pallet-fuso-reward/src/lib.rs rewards traded volume era by era: Reward, with Reward/History for
--   sequences of calls and trades. `Rewards` is a dictionary with the account as its first number.
-- * pallet-fuso-indicator/src/lib.rs keeps the prices of tokens: Indicator.
-- * pallet-fuso-agent/src/lib.rs takes transactions with an Ethereum signature: Agent, with
--   Agent/Payload for the signed message and Agent/Replay for sequences of transactions.
-- * pallet-fuso-foundation/src/lib.rs unlocks funds of the genesis period by period: Foundation,
--   with Foundation/Schedule and Foundation/Funds for the map of the funds, Foundation/Ledger for one
--   period of all of them, Foundation/Blocks for the hook over consecutive blocks, and
--   Foundation/Genesis for the blocks after the genesis. What an account has reserved is a function
--   of the native ledger, which these modules take as a parameter.
-- * fuso-support/src/external_chain.rs describes tokens and resources: Support and
--   Support/ResourceId.
-- * Base holds what these share: lists, dictionaries, machine words, results, and the actions of
--   Base/Action, which run on a state and keep it after an error, as the storage of a pallet does
--   outside of a transaction; `transactional` puts the old state back.
--
-- How the code is read:
-- * `try_mutate_exists` reads the value, runs the closure on the storage, and writes the value back
--   if the closure succeeds, also over what the closure wrote under the same key.
-- * Balances are numbers below 2 ^ 128. `checked_add` and `checked_sub` return options; `+`, `-`
--   and `*` of primitive numbers panic on overflow or wrap around, by the `overflow_checks` of a
--   build. A panic is a result of its own.
-- * Loops are structural recursion on a list, or on the number of their rounds. The digits of a
--   length in Agent/Payload have fuel, one more than the number; the value of the digits is the
--   number itself, so it is enough.
-- * Parameters stand for what the repository does not hold: pallet_balances (the native token), the
--   lookup of addresses, the admin origin, `is_ascii`, `Permill::mul_ceil`, `Perquintill` with its
--   products, the decoding of an account from bytes, the sparse Merkle tree's `verify` and its hash,
--   the codec and the compression of proofs, hashes and signatures, weights, nonces, and the
--   dispatch of other pallets' calls. A pallet's associated type for another pallet is a record of
--   the operations that it calls: `Asset` of the verifier, `Fungibles` of the handler, and in the
--   verifier also `save_trading` and `set_price`, which act on the storage of the other pallets.
-- * Identifiers of tokens and accounts are numbers; a `BTreeMap` is a list in the order of its keys.
--
-- Not modelled: weights, mocks, tests and benchmarks, the RPC and its runtime interface, which are
-- network input and output over the pallets, logging, and what other crates implement: the SCALE
-- codec, the Merkle tree, hashes and signatures.
pub mod Agent
pub mod Base
pub mod Bridge
pub mod Foundation
pub mod Handler
pub mod Indicator
pub mod Reward
pub mod Support
pub mod Token
pub mod Verifier
