-- ===== src/Transaction/Tests.antt =====
-- The theorems on the static validation at one transaction.
use xian_abci.Prelude.{ℕ, String, true, refl, none, ◌≡◌, ◌≤◌}
use xian_abci.Prelude.Int.{pos}
use xian_abci.Result.{ok, err, value_error}
use xian_abci.Value.{Value, int, str, obj, end, field, truth, equals_text, get_item, lookup_field}
use xian_abci.Encoding.{Host}
use xian_abci.Fee.{tx_chi_supplied}
use xian_abci.Transaction.{
  validate_transaction_static, check_tx_formatting, check_tx_keys, unpack_transaction,
  check_contract_name,
}
use xian_abci.Transaction.Rules.{check_format, recurse_rules, dict_has_keys, member}
use xian_abci.Formatting.{
  hex_of_length, identifier, vk_is_formatted, signature_is_formatted, identifier_is_formatted,
  json_value_is_formatted, keys_are_identifiers, kwargs_are_formatted, number_is_formatted,
  cid_id_formated,
}
use xian_abci.Transaction.Shape.{
  WellFormed, validate_transaction_static-WellFormed, tx_chi_supplied-validated,
}

abbrev trusting_host : Host
trusting_host = record {
  utf8_decode = λ raw. none;
  json_loads = λ text. err value_error;
  json_dumps = λ value. "";
  verify_message = λ sender message signature. ok true;
  is_safe_contract_name = λ name. true;
  native_decode = none;
}

abbrev key : String
key = "00112233445566778899aabbccddeeff00112233445566778899aabbccddeeff"

abbrev signed : String
signed =
    "00112233445566778899aabbccddeeff00112233445566778899aabbccddeeff00112233445566778899aabbccddeeff00112233445566778899aabbccddeeff"

abbrev transfer : Value
transfer = obj (
    field "metadata" (obj (field "signature" (str signed) end)) (
      field "payload"
        (obj (
          field "chain_id" (str "xian-1") (
            field "chi_supplied" (int (pos 100)) (
              field "contract" (str "currency") (
                field "function" (str "transfer") (
                  field "kwargs" (obj (field "amount" (int (pos 5)) end))
                    (field "nonce" (int (pos 0)) (field "sender" (str key) end))))))))
        end))

transfer_valid : validate_transaction_static trusting_host transfer "xian-1" ≡ ok tt
unfolding validate_transaction_static check_tx_formatting check_format check_tx_keys
    unpack_transaction check_contract_name truth equals_text get_item lookup_field recurse_rules
    dict_has_keys member hex_of_length identifier vk_is_formatted signature_is_formatted
    identifier_is_formatted json_value_is_formatted keys_are_identifiers kwargs_are_formatted
    number_is_formatted cid_id_formated
transfer_valid = refl

validate_transaction_static-WellFormed_example : WellFormed "xian-1" transfer
validate_transaction_static-WellFormed_example =
    validate_transaction_static-WellFormed trusting_host transfer "xian-1" transfer_valid

tx_chi_supplied-validated_example :
    (n : ℕ) × (tx_chi_supplied transfer ≡ ok (pos n)) × (n ≤ 18446744073709551615)
tx_chi_supplied-validated_example =
    tx_chi_supplied-validated trusting_host transfer "xian-1" transfer_valid
