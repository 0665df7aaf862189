-- ===== src/Formatting.antt =====
-- src/xian/formatting.py: the formats of a transaction's fields. `is_safe_contract_name` is a
-- package's, and stays a parameter.
pub mod Laws
use text.Mathlib.Text.{starts_with}
use xian_abci.Prelude.{
  ℕ, String, Bool, true, false, ◌&&◌, ◌||◌, leb, all, length, if◌then◌else◌, ◌==◌, nat_eq, List, [],
  ◌∷◌,
}
use xian_abci.Prelude.Int.{ℤ, pos, negsuc, leb_ℤ}
use xian_abci.Result.{Except, ok, err, attribute_error}
use xian_abci.Value.{
  Value, null, bool, int, float, str, arr, obj, Items, nil, cons, Fields, end, field,
}
use xian_abci.Value.Number.{codes}

abbrev pub min_json_integer : ℤ
min_json_integer = negsuc 9223372036854775807

abbrev pub max_json_integer : ℤ
max_json_integer = pos 18446744073709551615

abbrev pub is_letter : ℕ → Bool
is_letter c = (leb b'a' c && leb c b'z') || (leb b'A' c && leb c b'Z')

abbrev pub is_decimal : ℕ → Bool
is_decimal c = leb b'0' c && leb c b'9'

abbrev pub is_hex : ℕ → Bool
is_hex c = is_decimal c || (leb b'a' c && leb c b'f') || (leb b'A' c && leb c b'F')

-- `_VK_RE.fullmatch` and `_SIGNATURE_RE.fullmatch`: so many hexadecimal digits.
unfoldable pub hex_of_length : ℕ → List ℕ → Bool
hex_of_length n cs = (length cs == n) && all is_hex cs

-- `_IDENTIFIER_RE.fullmatch`.
unfoldable pub identifier : List ℕ → Bool
identifier [] = false
identifier (c ∷ cs) = is_letter c && all (λ d. is_letter d || is_decimal d || (d == b'_')) cs

unfoldable pub vk_is_formatted : Value → Bool
vk_is_formatted (str s) = hex_of_length 64 (codes s)
vk_is_formatted _ = false

unfoldable pub signature_is_formatted : Value → Bool
signature_is_formatted (str s) = hex_of_length 128 (codes s)
signature_is_formatted _ = false

unfoldable pub identifier_is_formatted : Value → Bool
identifier_is_formatted (str s) = identifier (codes s)
identifier_is_formatted _ = false

unfoldable mutual
  pub json_value_is_formatted : Value → Bool
  json_value_is_formatted null = true
  json_value_is_formatted (bool b) = true
  json_value_is_formatted (int i) = leb_ℤ min_json_integer i && leb_ℤ i max_json_integer
  json_value_is_formatted (float x) = false
  json_value_is_formatted (str s) = true
  json_value_is_formatted (arr vs) = items_are_formatted vs
  json_value_is_formatted (obj fs) = fields_are_formatted fs

  pub items_are_formatted : Items → Bool
  items_are_formatted nil = true
  items_are_formatted (cons v vs) = json_value_is_formatted v && items_are_formatted vs

  pub fields_are_formatted : Fields → Bool
  fields_are_formatted end = true
  fields_are_formatted (field k v fs) = json_value_is_formatted v && fields_are_formatted fs

unfoldable pub keys_are_identifiers : Fields → Bool
keys_are_identifiers end = true
keys_are_identifiers (field k v fs) = identifier_is_formatted (str k) && keys_are_identifiers fs

unfoldable pub kwargs_are_formatted : Value → Bool
kwargs_are_formatted (obj fs) = keys_are_identifiers fs && json_value_is_formatted (obj fs)
kwargs_are_formatted _ = false

-- `type(i) is int` leaves the booleans out.
unfoldable pub number_is_formatted : Value → Bool
number_is_formatted (int (negsuc n)) = false
number_is_formatted (int (pos n)) = leb_ℤ (pos n) max_json_integer
number_is_formatted _ = false

unfoldable pub cid_id_formated : Value → Bool
cid_id_formated (str s) = true
cid_id_formated _ = false

-- On anything but a text `startswith` is no attribute.
unfoldable pub contract_name_is_formatted : (Value → Bool) → Value → Except Bool
contract_name_is_formatted is_safe_contract_name (str s) =
    ok (is_safe_contract_name (str s) && starts_with s "con_")
contract_name_is_formatted is_safe_contract_name v =
    if is_safe_contract_name v then err attribute_error else ok false
