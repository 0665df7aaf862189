-- ===== src/Block.antt =====
-- The transactions of a block, as the proposer, the other validators and the finalization see them:
-- src/xian/methods/prepare_proposal.py, process_proposal.py and the decoding loop of
-- finalize_block.py. All three run one admission, over the progress of the pass.
pub mod Admission
pub mod Proposal
pub mod Decoding
pub mod Bounds
pub mod Nonces
mod Tests
use xian_abci.Prelude.{
  ℕ, ◌+◌, String, Bool, if◌then◌else◌, Option, none, some, List, [], ◌∷◌, length, map,
}
use xian_abci.Prelude.Bytes.{Bytes}
use xian_abci.Prelude.Int.{ℤ, pos, ◌+ℤ◌, ltb_ℤ}
use text.Mathlib.Text.{◌==◌ as str_eqb}
use xian_abci.Result.{Except, ok, err, Failure, ◌>>=◌, ◌>>◌}
use xian_abci.Value.{Value, obj, Fields, end, field}
use xian_abci.Encoding.{Host}
use xian_abci.Fee.{TxFeePolicy, validate_tx, tx_chi_supplied, validate_block_total}
use xian_abci.Transaction.{decode_and_validate_transaction_static_bytes}
use xian_abci.Nonce.Tracker.{Tracker, new_tracker, validate_and_advance}

-- What the application holds while it looks at a block's transactions.
pub record Node : Type 0 where
  pub host : Host
  pub chain_id : String
  pub max_tx_bytes : Option ℕ
  pub tx_fee_policy : TxFeePolicy
  pub committed_nonce : String → Option ℤ

-- `nonce_tracker` and `block_chi_supplied`.
pub record Progress : Type 0 where
  pub nonce_tracker : Tracker
  pub block_chi_supplied : ℤ

abbrev pub start : Progress
start = record { nonce_tracker = new_tracker; block_chi_supplied = pos 0 }

pub data ProposalStatus : Type 0 where
  accept reject : ProposalStatus

-- One entry of `decoded_entries`: a transaction, or why it is none.
pub data Entry : Type 0 where
  decoded : Value → Bytes → Entry
  undecodable : Bytes → Failure → Entry
  invalid : Bytes → Failure → Entry

-- `tx["b_meta"] = meta`.
unfoldable pub set_field : String → Value → Fields → Fields
set_field k v end = field k v end
set_field k v (field j w fs) = if str_eqb j k then field j v fs else field j w (set_field k v fs)

abbrev pub attach_meta : Value → Value → Value
attach_meta meta (obj tx) = obj (set_field "b_meta" meta tx)
attach_meta meta tx = tx

module _ (node : Node) where
  abbrev pub decode_tx : Bytes → Except Value
  decode_tx raw_tx =
      decode_and_validate_transaction_static_bytes node.host raw_tx node.chain_id node.max_tx_bytes

  -- The checks on a decoded transaction. What a refusal leaves is the progress before it.
  unfoldable pub validate_in_block : Progress → Value → Except Progress
  validate_in_block p tx = do
    validate_tx node.tx_fee_policy tx
    chi_supplied ← tx_chi_supplied tx
    let next_block_chi_supplied = p.block_chi_supplied +ℤ chi_supplied
    validate_block_total node.tx_fee_policy next_block_chi_supplied
    latest ← validate_and_advance node.committed_nonce p.nonce_tracker tx
    ok (record { nonce_tracker = latest; block_chi_supplied = next_block_chi_supplied })

  unfoldable pub admit : Progress → Bytes → Except Progress
  admit p raw_tx = decode_tx raw_tx >>= validate_in_block p

  -- The transactions that `prepare_proposal` keeps, from the progress and the bytes so far.
  unfoldable pub prepare_txs : ℤ → List Bytes → Progress → ℕ → List Bytes
  prepare_txs max_tx_bytes [] p block_tx_bytes = []
  prepare_txs max_tx_bytes (raw_tx ∷ txs) p block_tx_bytes =
      let next_block_tx_bytes = block_tx_bytes + length raw_tx in
      let skip = prepare_txs max_tx_bytes txs p block_tx_bytes in
      if ltb_ℤ max_tx_bytes (pos next_block_tx_bytes) then skip else elim (admit p raw_tx) [
        | err e ↦ prepare_txs max_tx_bytes txs p block_tx_bytes
        | ok p' ↦ raw_tx ∷ prepare_txs max_tx_bytes txs p' next_block_tx_bytes
      ]

  -- `req.max_tx_bytes` is an int64.
  unfoldable pub prepare_proposal : ℤ → List Bytes → List Bytes
  prepare_proposal max_tx_bytes txs = prepare_txs max_tx_bytes txs start 0

  unfoldable pub process_txs : List Bytes → Progress → ProposalStatus
  process_txs [] p = accept
  process_txs (raw_tx ∷ txs) p = elim (admit p raw_tx) [
    | err e ↦ reject
    | ok p' ↦ process_txs txs p'
  ]

  unfoldable pub process_proposal : List Bytes → ProposalStatus
  process_proposal txs = process_txs txs start

  -- One round of the decoding loop: its entry, and the progress after it.
  unfoldable pub decode_entry : Value → Progress → Bytes → Entry × Progress
  decode_entry meta p tx_bytes = elim (decode_tx tx_bytes) [
    | err e ↦ (undecodable tx_bytes e, p)
    | ok tx ↦ elim (validate_in_block p tx) [
      | err e ↦ (invalid tx_bytes e, p)
      | ok p' ↦ (decoded (attach_meta meta tx) tx_bytes, p')
    ]
  ]

  unfoldable pub decode_entries : Value → List Bytes → Progress → List Entry
  decode_entries meta [] p = []
  decode_entries meta (tx_bytes ∷ txs) p =
      let (entry, p') = decode_entry meta p tx_bytes in entry ∷ decode_entries meta txs p'

  -- `_decode_block_transactions`, without the logging.
  unfoldable pub decode_block_transactions : Value → List Bytes → List Entry
  decode_block_transactions meta txs = decode_entries meta txs start

-- `[entry["tx"] for entry in decoded_entries if "tx" in entry]`.
unfoldable pub decoded_txs : List Entry → List Value
decoded_txs [] = []
decoded_txs (decoded tx raw ∷ entries) = tx ∷ decoded_txs entries
decoded_txs (undecodable raw e ∷ entries) = decoded_txs entries
decoded_txs (invalid raw e ∷ entries) = decoded_txs entries

-- `sum(1 for entry in decoded_entries if "error" in entry)`.
unfoldable pub rejected_tx_count : List Entry → ℕ
rejected_tx_count [] = 0
rejected_tx_count (decoded tx raw ∷ entries) = rejected_tx_count entries
rejected_tx_count (undecodable raw e ∷ entries) = 1 + rejected_tx_count entries
rejected_tx_count (invalid raw e ∷ entries) = 1 + rejected_tx_count entries
