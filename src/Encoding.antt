-- ===== src/Encoding.antt =====
-- src/xian/utils/encoding.py: the canonical form of a JSON value, and the transaction bytes.
-- `Host` collects what the sources call outside the repository: the JSON codec, strict UTF-8
-- decoding, the signature check, the name check of a package, and the optional native fast path.
pub mod RoundTrip
mod Tests
use text.Mathlib.Text.{◌==◌ as str_eqb}
use Prim.Native.Char.{Char, nul}
use xian_abci.Prelude.{
  ℕ, zero, suc, ◌+◌, ◌-◌, ◌*◌, ◌/◌, ◌%◌, String, Bool, not, ◌&&◌, ◌||◌, leb, ltb, if◌then◌else◌,
  ◌==◌, nat_eq, Option, none, some, List, [], ◌∷◌,
}
use xian_abci.Prelude.Bytes.{Bytes, utf8}
use xian_abci.Prelude.Int.{leb_ℤ}
use xian_abci.Result.{Except, ok, err, value_error, key_error, raise_if, ◌>>=◌, ◌>>◌}
use xian_abci.Value.{
  Value, null, bool, int, float, str, arr, obj, Items, nil, cons, Fields, end, field, insert_sorted,
  get_item,
}
use xian_abci.Value.Number.{codes}
use xian_abci.Formatting.{min_json_integer, max_json_integer}

pub record Host : Type 0 where
  pub utf8_decode : Bytes → Option String
  pub json_loads : String → Except Value
  pub json_dumps : Value → String
  pub verify_message : Value → String → Value → Except Bool
  pub is_safe_contract_name : Value → Bool
  -- `None` where the package is not installed
  pub native_decode : Option (Bytes → String → Except Value)

abbrev pub max_canonical_json_depth : ℕ
max_canonical_json_depth = 128

-- The second argument is `_depth`.
unfoldable mutual
  pub canonical_json_value : Value → ℕ → Except Value
  canonical_json_value null depth =
      if ltb max_canonical_json_depth depth then err value_error else ok null
  canonical_json_value (bool b) depth =
      if ltb max_canonical_json_depth depth then err value_error else ok (bool b)
  canonical_json_value (int i) depth =
      if ltb max_canonical_json_depth depth
      then err value_error
      else if leb_ℤ min_json_integer i && leb_ℤ i max_json_integer
      then ok (int i)
      else err value_error
  canonical_json_value (float x) depth = err value_error
  canonical_json_value (str s) depth =
      if ltb max_canonical_json_depth depth then err value_error else ok (str s)
  canonical_json_value (arr vs) depth =
      let items = canonical_items vs (depth + 1) in
      if ltb max_canonical_json_depth depth
      then err value_error
      else items >>= λ canonical. ok (arr canonical)
  canonical_json_value (obj fs) depth =
      let fields = canonical_fields fs (depth + 1) in
      if ltb max_canonical_json_depth depth
      then err value_error
      else fields >>= λ canonical. ok (obj canonical)

  pub canonical_items : Items → ℕ → Except Items
  canonical_items nil depth = ok nil
  canonical_items (cons v vs) depth = do
    first ← canonical_json_value v depth
    rest ← canonical_items vs depth
    ok (cons first rest)

  pub canonical_fields : Fields → ℕ → Except Fields
  canonical_fields end depth = ok end
  canonical_fields (field k v fs) depth = do
    item ← canonical_json_value v depth
    rest ← canonical_fields fs depth
    ok (insert_sorted k item rest)

unfoldable pub canonical_json_text : Host → Value → Except String
canonical_json_text host value = do
  canonical ← canonical_json_value value 0
  ok (host.json_dumps canonical)

-- The white space that `bytes.fromhex` skips between bytes.
abbrev is_ascii_space : ℕ → Bool
is_ascii_space c = (leb 9 c && leb c 13) || (c == 32)

abbrev hex_digit : ℕ → Option ℕ
hex_digit c =
    if leb b'0' c && leb c b'9'
    then some (c - b'0')
    else if leb b'a' c && leb c b'f'
    then some (c - 87)
    else if leb b'A' c && leb c b'F'
    then some (c - 55)
    else none

abbrev join_digits : Option ℕ → Option ℕ → Option Bytes → Except Bytes
join_digits (some high) (some low) (some rest) = ok ((high * 16 + low) ∷ rest)
join_digits _ _ _ = err value_error

abbrev ok? : Except Bytes → Option Bytes
ok? (ok b) = some b
ok? (err e) = none

-- `bytes.fromhex(text)`.
unfoldable pub from_hex : List ℕ → Except Bytes
from_hex [] = ok []
from_hex (c ∷ []) = if is_ascii_space c then ok [] else err value_error
from_hex (c ∷ d ∷ cs) =
    let skip = from_hex (d ∷ cs) in
    let read = join_digits (hex_digit c) (hex_digit d) (ok? (from_hex cs)) in
    if is_ascii_space c then skip else read

-- The lower-case digit of a number below 16.
abbrev hex_char : ℕ → ℕ
hex_char n = if ltb n 10 then b'0' + n else 87 + n

-- `binascii.hexlify(payload)`.
unfoldable pub hexlify : Bytes → Bytes
hexlify [] = []
hexlify (b ∷ bs) = hex_char (b / 16) ∷ hex_char (b % 16) ∷ hexlify bs

abbrev symbol_at : ℕ → String → Char
symbol_at n String.[] = nul
symbol_at zero (String.◌∷◌ c s) = c
symbol_at (suc n) (String.◌∷◌ c s) = symbol_at n s

abbrev pub hex_symbol : ℕ → Char
hex_symbol n = symbol_at n "0123456789abcdef"

-- `payload.hex()`.
unfoldable pub hex : Bytes → String
hex [] = String.[]
hex (b ∷ bs) = String.◌∷◌ (hex_symbol (b / 16)) (String.◌∷◌ (hex_symbol (b % 16)) (hex bs))

-- The text is ASCII, so that its UTF-8 form is `hexlify`'s bytes.
unfoldable pub encode_transaction_bytes : String → Bytes
encode_transaction_bytes tx_str = hexlify (utf8 tx_str)

abbrev decoded_text : Option String → Except String
decoded_text none = err value_error
decoded_text (some s) = ok s

-- `except KeyError`; a `TypeError` goes on.
abbrev invalid_payload : Except Value → Except Value
invalid_payload (err key_error) = err value_error
invalid_payload r = r

unfoldable pub decode_transaction_bytes : Host → Bytes → Except (Value × String)
decode_transaction_bytes host raw = do
  tx_hex ← decoded_text (host.utf8_decode raw)
  tx_decoded_bytes ← from_hex (codes tx_hex)
  tx_str ← decoded_text (host.utf8_decode tx_decoded_bytes)
  tx_json ← host.json_loads tx_str
  canonical_tx_str ← canonical_json_text host tx_json
  raise_if (not (str_eqb tx_str canonical_tx_str)) value_error
  payload ← invalid_payload (get_item tx_json "payload")
  payload_str ← canonical_json_text host payload
  ok (tx_json, payload_str)
