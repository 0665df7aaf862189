-- ===== src/Mempool/Tests.antt =====
-- The theorem on CheckTx at a node that charges fees, whose fast path reads one byte as a transfer.
-- The numbers are ints.
use xian_abci.Prelude.{
  ℕ, ◌*◌, ◌/◌, String, false, ◌≡◌, refl, if◌then◌else◌, Option, some, none, [], ◌∷◌,
}
use xian_abci.Prelude.Bytes.{Bytes}
use xian_abci.Prelude.Int.{ℤ, pos, ltb_ℤ, ◌+ℤ◌, ◌-ℤ◌}
use xian_abci.Prelude.Dict.{lookup, insert, erase}
use xian_abci.Result.{Except, ok, err, value_error, type_error}
use xian_abci.Value.{
  Value, int, str, obj, end, field, get_item, lookup_field, equals_text, truth, to_int,
}
use xian_abci.Fee.{paid_metered, validate_tx, tx_chi_supplied}
use xian_abci.Transaction.{decode_and_validate_transaction_static_bytes}
use xian_abci.Nonce.Storage.{
  Settings, check_nonce, check_sender_nonce, reserve_next, get_next_nonce, get_pending_nonce,
  prune_pending_for_sender,
}
use xian_abci.Block.{Node, decode_tx}
use xian_abci.Mempool.{
  Decimals, Client, Clock, check_enough_chi, check_balance, check_funds,
  validate_transaction_after_static, check_tx,
}
use xian_abci.Mempool.Accepted.{IsReserved, check_tx-accepted}

abbrev natural : ℤ → Except ℕ
natural (pos n) = ok n
natural _ = err type_error

abbrev natural_op : (ℕ → ℕ → ℕ) → Except ℕ → Except ℕ → Except ℤ
natural_op op (ok a) (ok b) = ok (pos (op a b))
natural_op op _ _ = err type_error

abbrev int_value : Value → ℤ
int_value (int i) = i
int_value _ = pos 0

abbrev ints : Decimals
ints = record {
  Number = ℤ;
  of_int = λ i. i;
  of_value = int_value;
  mul = λ a b. natural_op (λ m n. m * n) (natural a) (natural b);
  sub = λ a b. ok (a -ℤ b);
  div = λ a b. natural_op (λ m n. m / n) (natural a) (natural b);
  lt = λ a b. ok (ltb_ℤ a b);
  convert_dict = λ v. err type_error;
}

abbrev transfer : ℕ → Value
transfer nonce = obj (
    field "payload"
      (obj (
        field "sender" (str "alice") (
          field "nonce" (int (pos nonce)) (
            field "chi_supplied" (int (pos 100)) (
              field "contract" (str "currency") (
                field "function" (str "transfer")
                  (field "kwargs" (obj (field "amount" (int (pos 5)) end)) end)))))))
      end)

abbrev read_byte : Bytes → String → Except Value
read_byte (nonce ∷ []) chain_id = ok (transfer nonce)
read_byte _ chain_id = err value_error

abbrev paid_node : Node
paid_node = record {
  host = record {
    utf8_decode = λ raw. none;
    json_loads = λ text. err value_error;
    json_dumps = λ value. "";
    verify_message = λ sender message signature. err value_error;
    is_safe_contract_name = λ name. false;
    native_decode = some read_byte;
  };
  chain_id = "xian-1";
  max_tx_bytes = some 8;
  tx_fee_policy = paid_metered none none;
  committed_nonce = λ sender. none;
}

abbrev settings : Settings
settings = record { reservation_ttl_seconds = pos 60; max_pending_nonces_per_sender = 2 }

abbrev none_committed : String → Option ℤ
none_committed sender = none

abbrev clock : Clock
clock = record { first = pos 1; now = pos 2; later = pos 3 }

abbrev rich : Client ints
rich = record { balance_of = λ sender. ok (some (pos 1000)); chi_rate = ok none }

abbrev hash_of : Bytes → String
hash_of raw = "hash"

accepted :
    (check_tx ints settings none_committed hash_of paid_node clock rich [] (0 ∷ [])).0 ≡ ok tt
unfolding check_tx decode_and_validate_transaction_static_bytes validate_transaction_after_static
    check_funds check_balance check_enough_chi validate_tx tx_chi_supplied paid_metered to_int truth
    get_item lookup_field equals_text check_nonce check_sender_nonce reserve_next get_next_nonce
    get_pending_nonce prune_pending_for_sender lookup insert erase ◌+ℤ◌ ◌-ℤ◌
accepted = refl

check_tx-accepted_example :
    (tx : Value) × (decode_tx paid_node (0 ∷ []) ≡ ok tx)
    × (validate_tx paid_node.tx_fee_policy tx ≡ ok tt)
    × ((if paid_node.tx_fee_policy.require_chi_balance then check_balance ints rich tx else ok tt)
        ≡ ok tt)
    × IsReserved ints settings none_committed
        (check_tx ints settings none_committed hash_of paid_node clock rich [] (0 ∷ [])).1
        tx
        "hash"
check_tx-accepted_example =
    check_tx-accepted ints settings none_committed hash_of paid_node clock rich [] (0 ∷ []) accepted
