-- ===== src/Encoding/Tests.antt =====
-- A transaction through the encoding of src/xian/utils/encoding.py.
use xian_abci.Prelude.{String, ◌≡◌, refl, true, Option, none, some, ◌==◌, string_eq, if◌then◌else◌}
use xian_abci.Prelude.Bytes.{Bytes, bytes_eq, utf8, utf8_char}
use xian_abci.Result.{ok, err, value_error}
use xian_abci.Value.{Value, str, obj, end, field, get_item, lookup_field, insert_sorted}
use xian_abci.Encoding.{
  Host, hex, canonical_json_value, canonical_json_text, encode_transaction_bytes,
  decode_transaction_bytes,
}
use xian_abci.Encoding.RoundTrip.{decode-encode_transaction_bytes}

abbrev tx : Value
tx = obj (field "payload" (str "p") end)

-- The text of the transaction is "tx", and that of its payload "p".
abbrev dumped : Value → String
dumped (str s) = s
dumped _ = "tx"

abbrev decoded : Bytes → Option String
decoded b = if b == utf8 "tx" then some "tx" else some "7478"

abbrev host : Host
host = record {
  utf8_decode = decoded;
  json_loads = λ s. if s == "tx" then ok tx else err value_error;
  json_dumps = dumped;
  verify_message = λ key message signature. ok true;
  is_safe_contract_name = λ name. true;
  native_decode = none;
}

decodes : host.utf8_decode (utf8 "tx") ≡ some "tx"
unfolding utf8 utf8_char
decodes = refl

decodes_hex : host.utf8_decode (utf8 (hex (utf8 "tx"))) ≡ some (hex (utf8 "tx"))
unfolding utf8 utf8_char hex
decodes_hex = refl

canonical : canonical_json_text host tx ≡ ok "tx"
unfolding canonical_json_text canonical_json_value insert_sorted
canonical = refl

has_payload : get_item tx "payload" ≡ ok (str "p")
unfolding get_item lookup_field
has_payload = refl

payload_text : canonical_json_text host (str "p") ≡ ok "p"
unfolding canonical_json_text canonical_json_value
payload_text = refl

decode-encode_transaction_bytes_example :
    decode_transaction_bytes host (encode_transaction_bytes "tx") ≡ ok (tx, "p")
decode-encode_transaction_bytes_example =
    decode-encode_transaction_bytes host "tx" "p" tx (str "p") decodes decodes_hex refl canonical
      has_payload payload_text
