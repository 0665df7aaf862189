-- ===== src/Lib.antt =====
-- xian-abci: a CometBFT application written in Python, which runs contracts and keeps their state.
-- CometBFT calls it through the ABCI methods in src/xian/methods: it asks for a proposal, has the
-- other validators check it, and hands over the decided block, whose transactions are executed and
-- whose writes give the app hash; a commit then makes the writes durable. This library models which
-- transactions are let into a block, what the app hash of a state is, how the fee of a transaction
-- is shared out, which state patches a height applies, and what a commit leaves.
--
-- The parts, and the files that model them:
--   Prelude, Prelude/*       shared names and lemmas: bytes, integers, lists, dicts, sorting
--   Value, Value/Number      Python's JSON values as the sources use them: truth, equality, int()
--   Result                   exceptions as values (src/xian/exceptions.py and Python's own), and
--                            what holds of the value of a chain of steps
--   Formatting               src/xian/formatting.py, the formats of a transaction's fields
--   Encoding                 src/xian/utils/encoding.py, canonical JSON and the transaction bytes
--   Transaction              src/xian/utils/tx.py, the validation that needs no state
--   Nonce/Tracker            src/xian/utils/tx.py, SequentialNonceTracker
--   Nonce/Storage            src/xian/nonce.py, the reservations of the mempool
--   Nonce/Committed          src/xian/nonce.py, the committed nonces in the state
--   Fee, Fee/Config          src/xian/fee_policy.py, metering and the chi limits
--   Validators               src/xian/validators.py, the validator set and its updates
--   Mempool                  src/xian/utils/tx.py, validate_transaction_after_static, and
--                            src/xian/methods/check_tx.py
--   Block                    src/xian/methods/prepare_proposal.py, process_proposal.py and the
--                            decoding loop of finalize_block.py
--   StateRoot                src/xian/state_root.py: the hashes, the treap (`None` is `empty`), and
--                            the cache with its staged changes
--   Commit                   src/xian/methods/commit.py; Marker is info.py and, of
--                            src/xian/utils/block.py, the marker of the latest block and its mirror
--   StatePatches             src/xian/utils/state_patches.py: Canonical and Bundle are the hashes
--                            and the loading of bundles, Schedule the records of governance,
--                            Execution the building of executions and their application
--   Rewards                  src/xian/rewards.py: Split is the split among a validator, its
--                            delegators, the validator set and developers, Outputs the rewards of a
--                            transaction and their report
--   Evidence                 src/xian/methods/_evidence.py, the penalties of misbehaviour reports
--   LogRetention             src/xian/log_retention.py, the rotation and the budget of log files, with
--                            the operations on files that may fail
-- A function keeps its Python name, without a leading underscore. An object that a method changes is
-- passed in and given back; `raise` is an error result. The three passes over a block run one
-- admission: the static validation of the bytes, the fee policy, the chi of the block so far, and
-- the nonce tracker. A commit ends the staging of the state root cache and reconciles the
-- reservations of the mempool.
--
-- Parameters, since their code is not in the repository: sha256, the JSON codec, strict UTF-8
-- decoding, `str` of a value, the signature check, the name check of contracts, the contract
-- compiler, `convert_dict`, the optional native fast path (`Host`), the encoding of a state value,
-- the numbers, the powers and the decimals of the contract runtime, the reads of its client, the
-- committed nonces, which no pass over a block changes, and the driver with its database. To the
-- penalties the processor of transactions is a parameter, too. Where a theorem needs more of them,
-- its hypotheses say so: the driver writes a batch as a whole or not at all, and the codec reads
-- what it has written. The theorem on the sums of rewards takes sums and differences of decimals as
-- exact, as Python's are while a result has no more digits than the precision of the context, a
-- context that rounds quotients down, and amounts that lose at most a given `dust` when they become
-- a decimal of the runtime.
--
-- The functions are structural recursion; the loop of NonceStorage.get_pending_nonce runs on fuel,
-- one round for each reservation of the sender, which is shown to be enough. The depth of a JSON
-- value is limited by the code's own 128. Clock readings are whole ticks.
--
-- Two keys of the state have different priorities where a theorem says so. The priority is the
-- SHA-256 of the key, and the shape of a treap depends on the history where two of them are equal.
--
-- Not modelled: logging and metrics, the execution of contracts and the loops of finalize_block.py
-- that run it, queries, the block data service, the setup of nodes, other files, processes and
-- sockets.
pub mod Prelude
pub mod Result
pub mod Value
pub mod Formatting
pub mod Fee
pub mod Encoding
pub mod Transaction
pub mod Nonce
pub mod Block
pub mod Rewards
pub mod StatePatches
pub mod StateRoot
pub mod Mempool
pub mod Commit
pub mod Evidence
pub mod LogRetention
pub mod Validators
