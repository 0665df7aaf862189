-- ===== src/Block/Decoding.antt =====
-- The decoding of a finalized block, against the pass that validated its proposal.
use xian_abci.Prelude.{◌≡◌, ◌↔◌, refl, inl, inr, arith, List, [], ◌∷◌, map}
use xian_abci.Prelude.Bytes.{Bytes}
use xian_abci.Result.{Except-cases}
use xian_abci.Value.{Value}
use xian_abci.Block.{
  Node, Progress, start, accept, Entry, decoded, undecodable, invalid, admit, process_txs,
  process_proposal, decode_tx, validate_in_block, decode_entry, decode_entries,
  decode_block_transactions, rejected_tx_count,
}

-- The raw bytes of an entry.
abbrev pub entry_bytes : Entry → Bytes
entry_bytes (decoded tx raw) = raw
entry_bytes (undecodable raw e) = raw
entry_bytes (invalid raw e) = raw

module _ (node : Node) (meta : Value) where
  entry_bytes-decode_entry :
      (p : Progress) (raw : Bytes) → entry_bytes (decode_entry node meta p raw).0 ≡ raw
  unfolding decode_entry
  entry_bytes-decode_entry p raw = ground arith

  -- There is one entry for each transaction, in order.
  entries_in_order :
      (txs : List Bytes) (p : Progress) → map entry_bytes (decode_entries node meta txs p) ≡ txs
  unfolding decode_entries
  entries_in_order [] p = refl
  entries_in_order (raw ∷ txs) p =
      cc (entry_bytes-decode_entry p raw, entries_in_order txs (decode_entry node meta p raw).1)

  rejected-process_txs :
      (txs : List Bytes) (p : Progress)
      → (process_txs node txs p ≡ accept) ↔ (rejected_tx_count (decode_entries node meta txs p) ≡ 0)
  unfolding process_txs decode_entries decode_entry rejected_tx_count admit
  rejected-process_txs [] p = ground arith
  rejected-process_txs (raw ∷ txs) p = elim (Except-cases (decode_tx node raw)) [
    | inl (e, undecoded) ↦ ground arith
    | inr (tx, read) ↦ elim (Except-cases (validate_in_block node p tx)) [
      | inl (e, refused) ↦ ground arith
      | inr (p', admitted) ↦ ground (arith, rejected-process_txs txs p')
    ]
  ]

  -- Finalization rejects no transaction of a block exactly when the proposal is accepted; and the
  -- entries stand for the block's transactions one by one, in order.
  pub finalize-agrees :
      (txs : List Bytes)
      → ((process_proposal node txs ≡ accept)
          ↔ (rejected_tx_count (decode_block_transactions node meta txs) ≡ 0))
        × (map entry_bytes (decode_block_transactions node meta txs) ≡ txs)
  unfolding process_proposal decode_block_transactions
  finalize-agrees txs = (rejected-process_txs txs start, entries_in_order txs start)
