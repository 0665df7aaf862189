-- ===== src/Transaction.antt =====
-- src/xian/utils/tx.py: the static validation of a transaction, from its raw bytes to the checks
-- that need no state.
pub mod Rules
pub mod Shape
mod Tests
use text.Mathlib.Text.{◌==◌ as str_eqb}
use xian_abci.Prelude.{
  ℕ, String, Bool, true, false, not, ◌&&◌, ◌||◌, ltb, nat_eqb, if◌then◌else◌, Option, none, some,
  length, all, List, [], ◌∷◌,
}
use xian_abci.Prelude.Bytes.{Bytes}
use xian_abci.Prelude.Int.{ℤ}
use xian_abci.Result.{
  Except, ok, err, Failure, transaction, type_error, attribute_error, metadata_missing,
  metadata_count, payload_missing, payload_keys, payload_key_missing, bad_signature, wrong_chain_id,
  contract_name, too_many_bytes, native_refusal, raise_if, ◌>>=◌, ◌>>◌,
}
use xian_abci.Value.{
  Value, null, bool, int, float, str, arr, obj, Items, nil, cons, Fields, end, field, truth, keys,
  lookup_field, get_field, get_item, insert_sorted, equals_text,
}
use xian_abci.Formatting.{contract_name_is_formatted}
use xian_abci.Encoding.{Host, decode_transaction_bytes}
use xian_abci.Transaction.Rules.{check_format, transaction_rules, transaction_payload_keys, member}

-- `_format_value`: every dict sorted by key.
unfoldable mutual
  pub format_value : Value → Value
  format_value null = null
  format_value (bool b) = bool b
  format_value (int i) = int i
  format_value (float x) = float x
  format_value (str s) = str s
  format_value (arr vs) = arr (format_items vs)
  format_value (obj fs) = obj (format_fields fs)

  pub format_items : Items → Items
  format_items nil = nil
  format_items (cons v vs) = cons (format_value v) (format_items vs)

  pub format_fields : Fields → Fields
  format_fields end = end
  format_fields (field k v fs) = insert_sorted k (format_value v) (format_fields fs)

unfoldable pub canonical_json : Host → Value → String
canonical_json host value = host.json_dumps (format_value value)

-- `tx[part][key]`.
abbrev pub item_of : Value → String → String → Except Value
item_of tx part key = do dict ← get_item tx part; get_item dict key

-- `d.get(k, default)`, on anything but a dict an `AttributeError`.
abbrev pub get_method : Value → String → Value → Except Value
get_method (obj fs) k default = ok (elim (lookup_field k fs) [ none ↦ default | some v ↦ v ])
get_method _ k default = err attribute_error

-- The logging of an old field is left out: it changes nothing.
unfoldable pub unpack_transaction : Host → Value → Except (Value × Value × String)
unpack_transaction host tx = do
  metadata ← get_item tx "metadata"
  timestamp ← get_method metadata "timestamp" null
  payload ← get_item tx "payload"
  chain_id ← get_method payload "chain_id" (str "")
  sender ← get_item payload "sender"
  signature ← get_item metadata "signature"
  contract ← get_item payload "contract"
  function ← get_item payload "function"
  kwargs ← get_item payload "kwargs"
  nonce ← get_item payload "nonce"
  chi_supplied ← get_item payload "chi_supplied"
  let tx_for_verification = obj (
      field "chain_id" chain_id (
        field "contract" contract (
          field "function" function (
            field "kwargs" kwargs (
              field "nonce" nonce
                (field "sender" sender (field "chi_supplied" chi_supplied end)))))))
  ok (sender, signature, canonical_json host tx_for_verification)

-- `payload[key] in (None, "")`.
abbrev pub is_blank : Value → Bool
is_blank null = true
is_blank v = equals_text v ""

abbrev pub require_keys : List String → Fields → Except (Unit {0})
require_keys [] payload = ok tt
require_keys (key ∷ rest) payload = do
  raise_if (is_blank (get_field key payload)) (transaction (payload_key_missing key))
  require_keys rest payload

abbrev pub check_metadata : Value → Except (Unit {0})
check_metadata (obj fs) = do
  raise_if (not (truth (obj fs))) (transaction metadata_missing)
  raise_if (not (nat_eqb (length (keys fs)) 1)) (transaction metadata_count)
check_metadata _ = err (transaction metadata_missing)

abbrev pub check_payload : Value → Except (Unit {0})
check_payload (obj fs) = do
  raise_if (not (truth (obj fs))) (transaction payload_missing)
  raise_if (not (all (λ k. member k transaction_payload_keys) (keys fs))) (transaction payload_keys)
  require_keys ("sender" ∷ "contract" ∷ "function" ∷ "chi_supplied" ∷ []) fs
check_payload _ = err (transaction payload_missing)

unfoldable pub check_tx_keys : Fields → Except (Unit {0})
check_tx_keys tx = do
  check_metadata (get_field "metadata" tx)
  check_payload (get_field "payload" tx)

-- On anything but a dict `tx.get` is an `AttributeError`.
unfoldable pub check_tx_formatting : Value → Except (Unit {0})
check_tx_formatting (obj tx) = do check_tx_keys tx; check_format tx transaction_rules
check_tx_formatting _ = err attribute_error

unfoldable pub check_contract_name : Host → Value → Value → Value → Except (Unit {0})
check_contract_name host contract function name =
    if equals_text contract "submission" && equals_text function "submit_contract"
    then (do
      formatted ← contract_name_is_formatted host.is_safe_contract_name name
      raise_if (not formatted) (transaction contract_name))
    else ok tt

unfoldable pub validate_transaction_static : Host → Value → String → Except (Unit {0})
validate_transaction_static host tx chain_id = do
  check_tx_formatting tx
  (sender, signature, payload) ← unpack_transaction host tx
  valid ← host.verify_message sender payload signature
  raise_if (not valid) (transaction bad_signature)
  dict ← get_item tx "payload"
  tx_chain_id ← get_method dict "chain_id" (str "")
  raise_if (not (equals_text tx_chain_id chain_id)) (transaction wrong_chain_id)
  kwargs ← get_item dict "kwargs"
  name ← get_method kwargs "name" null
  contract ← get_item dict "contract"
  function ← get_item dict "function"
  check_contract_name host contract function name

-- Whatever the fast path raises becomes a `TransactionException`.
abbrev native_result : Except Value → Except Value
native_result (ok tx) = ok tx
native_result (err e) = err (transaction native_refusal)

abbrev decode_and_validate :
    Host → Option (Bytes → String → Except Value) → Bytes → String → Except Value
decode_and_validate host (some native) raw_tx chain_id = native_result (native raw_tx chain_id)
decode_and_validate host none raw_tx chain_id = do
  (tx, _) ← decode_transaction_bytes host raw_tx
  validate_transaction_static host tx chain_id
  ok tx

abbrev too_long : Option ℕ → ℕ → Except (Unit {0})
too_long none size = ok tt
too_long (some limit) size = raise_if (ltb limit size) (transaction (too_many_bytes limit))

unfoldable pub decode_and_validate_transaction_static_bytes :
    Host → Bytes → String → Option ℕ → Except Value
decode_and_validate_transaction_static_bytes host raw_tx chain_id max_raw_tx_bytes = do
  too_long max_raw_tx_bytes (length raw_tx)
  decode_and_validate host host.native_decode raw_tx chain_id
