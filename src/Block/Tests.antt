-- ===== src/Block/Tests.antt =====
-- The theorems on blocks at a node whose fast path reads one byte as a transaction of one sender.
use xian_abci.Prelude.{ℕ, String, true, refl, none, some, ◌≡◌, ◌↔◌, List, [], ◌∷◌, map, arith}
use xian_abci.Prelude.Bytes.{Bytes}
use xian_abci.Prelude.Int.{pos, ◌≤ℤ◌, ◌+ℤ◌}
use xian_abci.Result.{Except, ok, err, value_error}
use xian_abci.Value.{
  Value, null, int, str, obj, end, field, to_int, truth, lookup_field, get_item, equals_int,
}
use xian_abci.Encoding.{Host}
use xian_abci.Fee.{free_metered, validate_tx, tx_chi_supplied, validate_block_total}
use xian_abci.Nonce.Tracker.{expected_nonce, validate_and_advance}
use xian_abci.Transaction.{decode_and_validate_transaction_static_bytes}
use xian_abci.Prelude.Dict.{insert, lookup}
use xian_abci.Block.{
  Node, prepare_proposal, process_proposal, process_txs, admit, validate_in_block, accept,
  decode_block_transactions, decoded_txs, rejected_tx_count,
}
use xian_abci.Block.Proposal.{total_bytes, process-prepare, prepare-fits, prepare-accepted}
use xian_abci.Block.Decoding.{entry_bytes, finalize-agrees}
use xian_abci.Block.Bounds.{total_chi, finalize-chi-le-limit}
use xian_abci.Block.Nonces.{Consecutive, after_committed, nonces_of, finalize-nonces}

abbrev transaction_with : ℕ → Value
transaction_with nonce = obj (
    field "payload"
      (obj (
        field "sender" (str "alice")
          (field "nonce" (int (pos nonce)) (field "chi_supplied" (int (pos 5)) end))))
      end)

abbrev read_byte : Bytes → String → Except Value
read_byte (nonce ∷ []) chain_id = ok (transaction_with nonce)
read_byte _ chain_id = err value_error

abbrev sample_host : Host
sample_host = record {
  utf8_decode = λ raw. none;
  json_loads = λ text. err value_error;
  json_dumps = λ value. "";
  verify_message = λ sender message signature. ok true;
  is_safe_contract_name = λ name. true;
  native_decode = some read_byte;
}

abbrev sample_node : Node
sample_node = record {
  host = sample_host;
  chain_id = "xian-1";
  max_tx_bytes = some 8;
  tx_fee_policy = free_metered (pos 10) (pos 12);
  committed_nonce = λ sender. none;
}

-- Nonces 0, 7, 1 and 2, of which the second is wrong and the last is beyond the block's chi, and
-- bytes that are no transaction.
abbrev offered : List Bytes
offered = (0 ∷ []) ∷ (7 ∷ []) ∷ (1 ∷ []) ∷ (9 ∷ 9 ∷ []) ∷ (2 ∷ []) ∷ []

abbrev good : List Bytes
good = (0 ∷ []) ∷ (1 ∷ []) ∷ []

good_accepted : process_proposal sample_node good ≡ accept
unfolding process_proposal process_txs admit validate_in_block validate_and_advance expected_nonce
    decode_and_validate_transaction_static_bytes validate_tx tx_chi_supplied free_metered
    validate_block_total to_int truth lookup_field get_item insert lookup equals_int ◌+ℤ◌
good_accepted = refl

process-prepare_example :
    process_proposal sample_node (prepare_proposal sample_node (pos 100) offered) ≡ accept
process-prepare_example = process-prepare sample_node (pos 100) offered

prepare-fits_example : pos (total_bytes (prepare_proposal sample_node (pos 1) offered)) ≤ℤ pos 1
prepare-fits_example = prepare-fits sample_node (pos 1) offered (omega arith)

prepare-accepted_example : prepare_proposal sample_node (pos 2) good ≡ good
prepare-accepted_example = prepare-accepted sample_node (pos 2) good good_accepted (omega arith)

finalize-agrees_example :
    ((process_proposal sample_node offered ≡ accept)
      ↔ (rejected_tx_count (decode_block_transactions sample_node null offered) ≡ 0))
    × (map entry_bytes (decode_block_transactions sample_node null offered) ≡ offered)
finalize-agrees_example = finalize-agrees sample_node null offered

finalize-chi-le-limit_example :
    total_chi (decoded_txs (decode_block_transactions sample_node null offered)) ≤ℤ pos 12
unfolding free_metered
finalize-chi-le-limit_example =
    finalize-chi-le-limit sample_node null (pos 12) offered refl (omega arith)

finalize-nonces_example :
    Consecutive
      (after_committed (sample_node.committed_nonce "alice"))
      (nonces_of "alice" (decoded_txs (decode_block_transactions sample_node null offered)))
finalize-nonces_example = finalize-nonces sample_node null "alice" offered
