-- ===== src/Encoding/RoundTrip.antt =====
-- The round trips of src/xian/utils/encoding.py: bytes through their hexadecimal digits, and a
-- transaction through its encoding.
use Prim.Native.Nat.{Ordering, compare}
use Prim.Native.Char.{Char, char, code, IsScalar}
use xian_abci.Prelude.{
  ℕ, ◌<◌, ◌/◌, ◌%◌, String, ◌≡◌, refl, sym, ap, false, arith, some, [], ◌∷◌, ◌++◌, All, suc, zero,
  string_eq,
}
use xian_abci.Prelude.Bytes.{Bytes, utf8, utf8_char}
use xian_abci.Result.{ok}
use xian_abci.Value.{Value, get_item}
use xian_abci.Value.Number.{codes}
use xian_abci.Encoding.{
  is_ascii_space, hex_digit, from_hex, hex_char, hexlify, hex_symbol, hex, Host,
  canonical_json_text, encode_transaction_bytes, decode_transaction_bytes,
}

hex_digit-hex_char : (n : ℕ) → n < 16 → hex_digit (hex_char n) ≡ some n
hex_digit-hex_char n h = ground arith

hex_char-is_no_space : (n : ℕ) → n < 16 → is_ascii_space (hex_char n) ≡ false
hex_char-is_no_space n h = ground arith

-- Bytes are numbers below 256.
abbrev pub AreBytes : Bytes → Type 0
AreBytes = All (λ b. b < 256)

pub from_hex-hexlify : (bytes : Bytes) → AreBytes bytes → from_hex (hexlify bytes) ≡ ok bytes
unfolding from_hex hexlify
from_hex-hexlify [] h = refl
from_hex-hexlify (b ∷ bytes) h =
    rw
      (
        hex_char-is_no_space (b / 16) (ground arith),
        hex_digit-hex_char (b / 16) (ground arith),
        hex_digit-hex_char (b % 16) (ground arith),
        from_hex-hexlify bytes h.1,
      )
      (ap (λ n. ok (n ∷ bytes)) (omega arith))

-- A scalar value is below 0x110000.
scalar_bound :
    (n : ℕ) (low middle high : Ordering)
    → compare n 55296 ≡ low
    → compare 57343 n ≡ middle
    → compare n 1114112 ≡ high
    → IsScalar n
    → n < 1114112
scalar_bound n Ordering.lt middle high l m h = λ s. ground arith
scalar_bound n low middle Ordering.lt l m h = λ s. ground arith
scalar_bound n Ordering.eq Ordering.lt Ordering.eq l m h = rw (l, m, h, IsScalar) (λ z. absurd z)
scalar_bound n Ordering.eq Ordering.eq high l m h = rw (l, m, IsScalar) (λ z. absurd z)
scalar_bound n Ordering.eq Ordering.gt high l m h = rw (l, m, IsScalar) (λ z. absurd z)
scalar_bound n Ordering.eq Ordering.lt Ordering.gt l m h = rw (l, m, h, IsScalar) (λ z. absurd z)
scalar_bound n Ordering.gt Ordering.lt Ordering.eq l m h = rw (l, m, h, IsScalar) (λ z. absurd z)
scalar_bound n Ordering.gt Ordering.lt Ordering.gt l m h = rw (l, m, h, IsScalar) (λ z. absurd z)
scalar_bound n Ordering.gt Ordering.eq high l m h = rw (l, m, IsScalar) (λ z. absurd z)
scalar_bound n Ordering.gt Ordering.gt high l m h = rw (l, m, IsScalar) (λ z. absurd z)

code_bound : (c : Char) → code c < 1114112
code_bound (char n s) = scalar_bound n _ _ _ refl refl refl s

AreBytes-append : (a b : Bytes) → AreBytes a → AreBytes b → AreBytes (a ++ b)
AreBytes-append [] b h k = k
AreBytes-append (c ∷ a) b h k = (h.0, AreBytes-append a b h.1 k)

AreBytes-utf8_char : (c : ℕ) → c < 1114112 → AreBytes (utf8_char c)
unfolding utf8_char
AreBytes-utf8_char c h = ground arith

pub AreBytes-utf8 : (s : String) → AreBytes (utf8 s)
unfolding utf8
AreBytes-utf8 String.[] = tt
AreBytes-utf8 (String.◌∷◌ c s) =
    AreBytes-append (utf8_char (code c)) (utf8 s) (AreBytes-utf8_char (code c) (code_bound c))
      (AreBytes-utf8 s)

code-hex_symbol : (n : ℕ) → n < 16 → code (hex_symbol n) ≡ hex_char n
code-hex_symbol zero h = refl
code-hex_symbol (suc zero) h = refl
code-hex_symbol (suc (suc zero)) h = refl
code-hex_symbol (suc (suc (suc zero))) h = refl
code-hex_symbol (suc (suc (suc (suc zero)))) h = refl
code-hex_symbol (suc (suc (suc (suc (suc zero))))) h = refl
code-hex_symbol (suc (suc (suc (suc (suc (suc zero)))))) h = refl
code-hex_symbol (suc (suc (suc (suc (suc (suc (suc zero))))))) h = refl
code-hex_symbol (suc (suc (suc (suc (suc (suc (suc (suc zero)))))))) h = refl
code-hex_symbol (suc (suc (suc (suc (suc (suc (suc (suc (suc zero))))))))) h = refl
code-hex_symbol (suc (suc (suc (suc (suc (suc (suc (suc (suc (suc zero)))))))))) h = refl
code-hex_symbol (suc (suc (suc (suc (suc (suc (suc (suc (suc (suc (suc zero))))))))))) h = refl
code-hex_symbol (suc (suc (suc (suc (suc (suc (suc (suc (suc (suc (suc (suc zero)))))))))))) h =
    refl
code-hex_symbol (suc (suc (suc (suc (suc (suc (suc (suc (suc (suc (suc (suc (suc zero)))))))))))))
      h =
    refl
code-hex_symbol
      (suc (suc (suc (suc (suc (suc (suc (suc (suc (suc (suc (suc (suc (suc zero)))))))))))))) h =
    refl
code-hex_symbol
      (suc (suc (suc (suc (suc (suc (suc (suc (suc (suc (suc (suc (suc (suc (suc zero)))))))))))))))
      h =
    refl
code-hex_symbol
      (suc
        (suc (suc (suc (suc (suc (suc (suc (suc (suc (suc (suc (suc (suc (suc (suc n))))))))))))))))
      h =
    ground arith

hex_char-le : (n : ℕ) → n < 16 → hex_char n < 128
hex_char-le n h = ground arith

-- The digits as a text.
pub codes-hex : (bytes : Bytes) → AreBytes bytes → codes (hex bytes) ≡ hexlify bytes
unfolding hex hexlify
codes-hex [] h = refl
codes-hex (b ∷ bytes) h = cc (
  code-hex_symbol (b / 16) (ground arith),
  code-hex_symbol (b % 16) (ground arith),
  codes-hex bytes h.1,
)

utf8_char-symbol : (c n : ℕ) → c ≡ n → n < 128 → utf8_char c ≡ n ∷ []
unfolding utf8_char
utf8_char-symbol c n e h = ground arith

utf8-hex : (bytes : Bytes) → AreBytes bytes → utf8 (hex bytes) ≡ hexlify bytes
unfolding hex hexlify utf8
utf8-hex [] h = refl
utf8-hex (b ∷ bytes) h =
    rw
      (
        utf8_char-symbol _ _ (code-hex_symbol (b / 16) (ground arith))
            (hex_char-le _ (ground arith)),
        utf8_char-symbol _ _ (code-hex_symbol (b % 16) (ground arith))
            (hex_char-le _ (ground arith)),
      )
      (cc (utf8-hex bytes h.1))

-- Decoding is strict: it gives back the text that was encoded.
abbrev pub DecodesUtf8 : Host → String → Type 0
DecodesUtf8 host s = host.utf8_decode (utf8 s) ≡ some s

-- Where UTF-8 decoding gives back a text and its hexadecimal digits, and the text is the canonical form of the value that it
-- parses to and that has a payload: the bytes that the text is encoded to are decoded to that value,
-- with the canonical form of its payload.
pub decode-encode_transaction_bytes :
    (host : Host) (tx_str payload_str : String) (tx payload : Value)
    → DecodesUtf8 host tx_str
    → DecodesUtf8 host (hex (utf8 tx_str))
    → host.json_loads tx_str ≡ ok tx
    → canonical_json_text host tx ≡ ok tx_str
    → get_item tx "payload" ≡ ok payload
    → canonical_json_text host payload ≡ ok payload_str
    → decode_transaction_bytes host (encode_transaction_bytes tx_str) ≡ ok (tx, payload_str)
unfolding decode_transaction_bytes encode_transaction_bytes
decode-encode_transaction_bytes host tx_str payload_str tx payload decodes decodes_hex loads
      canonical item text =
    rw
      (
        sym (utf8-hex (utf8 tx_str) (AreBytes-utf8 tx_str)),
        decodes_hex,
        codes-hex (utf8 tx_str) (AreBytes-utf8 tx_str),
        from_hex-hexlify (utf8 tx_str) (AreBytes-utf8 tx_str),
        decodes,
        loads,
        canonical,
        (string_eq.same_iff tx_str tx_str).1 refl,
        item,
        text,
      )
      refl
