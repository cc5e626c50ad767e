-- ===== src/Lib.antt =====
-- CertiMining registry engine: the record chains, the epoch log and the checkpoint program.
--
-- Records of an asset form a hash chain whose head commits to the asset and to every accepted record.
-- The leaves of accepted records are submitted to a batcher, which promises an epoch for each, seals
-- an epoch into a padded binary tree of fixed size, and answers inclusion proofs. The root of every
-- epoch is published by a program on a chain, one epoch a day, with a receipt that is attached once.
--
-- Parts and files:
--   Common                 numbers, bytes, lists and signed integers that the parts share.
--   Core.Error             crates/certimining-core/src/error.rs: the codes, and `?` as a bind.
--   Core.Hash              hash.rs and verify.rs: Keccak-256 and Ed25519 are third-party crates, so a
--                          Hasher, a Verifier and a Signer are parameters. A digest has 32 bytes; that
--                          no two listed messages collide is a hypothesis where it is needed.
--   Core.Identity          identity.rs: canonicalize_bytes over UTF-8, with NFKD a parameter.
--   Core.Preimage          preimage.rs: every preimage, its staged writes, tags and digest.
--   Core.Prf               prf.rs: epoch_key, slot_seed and padding_prf.
--   Core.State             state.rs: AssetChain with start, resume, snapshot, leaf and apply.
--   Log.Tree               crates/certimining-log/src/tree.rs: build and proof of an epoch's tree.
--   Log.Proof              proof.rs: the inclusion verifier.
--   Log.Promise            promise.rs: signed promises, their policy and the test of a kept one.
--   Log.Batcher            batcher.rs: submit, seal, the queue behind a full epoch, and resume.
--   Program.Checkpoint     programs/certimining-checkpoint/src/lib.rs: initialize, publish_checkpoint
--                          and attach_anchor_receipt, with the runtime and the system program as a
--                          parameter whose documented behaviour is IsRuntime.
--   Client.Schedule, Publication, Separation
--                          crates/certimining-client/src/schedule.rs, publish.rs and separation.rs.
--   Client.Worker          worker.rs: the policy with its delays, and next_step on what is observed.
--   Client.Handoff         handoff.rs: the batcher's signed handoff, its 137 bytes, and refuse_to_write.
--   Client.Bitcoin         bitcoin.rs: the fields of a header, compact targets, the retarget, the walk
--                          of verify_chain from a checkpoint, and confirm. Double SHA-256 is a parameter.
--   Client.Receipt         ots.rs and promise_receipt.rs: the verification of a timestamp receipt, whose
--                          third-party parser is a parameter, and the judgement of a promise by one.
--   Client.Alert           alert.rs: the alerts that an observation and its supervision raise.
--   Client.Fetch           fetch.rs, anchor.rs and observe.rs: decoding of accounts, the lag of a range,
--                          where an epoch stands, and what the worker observes. The network, the
--                          framework's deserializers and the address derivation are parameters.
--   Client.Cluster, ErrorCode
--                          cluster.rs: publish with its retries, what it makes of an epoch that is
--                          already written, and the error code in the text of a refusal. The endpoint
--                          and the signers are a parameter; each request changes the outside world.
--                          Cluster.Attach is the attachment of a receipt, Cluster.Requests the account
--                          requests and the re-sending of a submission that a caller brings.
--   System                 worker.rs and the program on one log: a decision of the worker, its execution
--                          by the program, and the chain's accounts from day to day. The receipts
--                          that the worker submits and attaches stand in a part of their own.
--   Service                bin/batcher-handoff.rs and bin/anchor-b-worker.rs: the file that the
--                          batcher's process writes, the root that the worker takes from it, one turn
--                          of the worker's loop, and the loop. The clock, the files, the endpoint and
--                          the timestamp client are a parameter.
--   Examples               concrete inputs at which the theorems are applied.
--
-- State is passed explicitly: a method on `&mut self` is a Machine, a function from the state to the
-- state and a result, so what a failed call leaves behind is part of the model. An instruction of the
-- program returns no state when it fails, since the runtime rolls it back. Machine integers are
-- natural numbers with the source's checks written out; an i64 is a signed integer with its bounds.
--
-- An early return, or an error type that is one part's own, is Early: stop with the answer, or go on.
-- The text of a refusal is left out, and bytes stand where the source prints them.
--
-- Loops: probing runs on the capacity as its count, the tree's levels on the number of leaves, and a
-- proof on its height, which are the source's own bounds or, for the levels, more than enough, as
-- each round halves the level. No result depends on fuel running out.
--
-- The loop over the epochs of an observation runs on their number, the comparison of a hash on its 32
-- bytes, and the batches of a range on the number of epochs, of which each batch takes at least one.
--
-- The worker's loop has no end of its own, so it is run for a number of turns that its theorems name.
--
-- The loop of publish runs on the attempts that are left, as in the source.
--
-- Not modelled: the request for a slot of the cluster client, the client's calls of the external
-- timestamp client, its notifications, what its service binaries do before and around the writing of
-- a handoff and the turns of the worker (the reading of the environment, of texts and of key files),
-- its binaries for confirmations and checks, its signer, the TypeScript verifier and the repository's
-- tooling; the program's account serialization, which its framework generates, and the check that its
-- instruction data ends, which the framework's deserializer runs.
pub mod Common
pub mod Core
pub mod Log
pub mod Program
pub mod Client
pub mod System
pub mod Service
pub mod Examples
