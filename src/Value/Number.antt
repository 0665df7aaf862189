-- ===== src/Value/Number.antt =====
-- Python's floats as exact dyadic numbers, and `int()` of a float and of a text.
use Prim.Native.Char.{code}
use xian_abci.Prelude.{
  ℕ, zero, suc, ◌+◌, ◌-◌, ◌*◌, ◌/◌, ◌^◌, String, Bool, true, false, not, ◌&&◌, ◌||◌, leb,
  if◌then◌else◌, ◌==◌, nat_eq, Option, none, some, List, [], ◌∷◌,
}
use mathlib.Core.List.{reverse}
use xian_abci.Prelude.Int.{ℤ, pos, negsuc, eqb_ℤ}
use xian_abci.Result.{Except, ok, err, value_error, overflow_error}

-- `finite m e` is m / 2 ^ e.
pub data Float : Type 0 where
  finite : ℤ → ℕ → Float
  infinite : Bool → Float
  nan : Float

unfoldable pub float_truth : Float → Bool
float_truth (finite m e) = not (eqb_ℤ m (pos 0))
float_truth (infinite sign) = true
float_truth nan = true

abbrev scale : ℤ → ℕ → ℤ
scale (pos n) e = pos (n * 2 ^ e)
scale (negsuc n) e = negsuc (suc n * 2 ^ e - 1)

unfoldable pub float_eq : Float → ℤ → Bool
float_eq (finite m e) n = eqb_ℤ m (scale n e)
float_eq (infinite sign) n = false
float_eq nan n = false

-- -n, for a magnitude.
abbrev pub negative : ℕ → ℤ
negative zero = pos 0
negative (suc n) = negsuc n

-- Towards zero.
unfoldable pub float_int : Float → Except ℤ
float_int (finite (pos n) e) = ok (pos (n / 2 ^ e))
float_int (finite (negsuc n) e) = ok (negative (suc n / 2 ^ e))
float_int (infinite sign) = err overflow_error
float_int nan = err value_error

-- The code points of a text.
abbrev pub codes : String → List ℕ
codes String.[] = []
codes (String.◌∷◌ c s) = code c ∷ codes s

-- The white space of `str.strip`.
unfoldable pub is_space : ℕ → Bool
is_space c =
    (leb 9 c && leb c 13)
    || (leb 28 c && leb c 32)
    || (c == 133)
    || (c == 160)
    || (c == 5760)
    || (leb 8192 c && leb c 8202)
    || (c == 8232)
    || (c == 8233)
    || (c == 8239)
    || (c == 8287)
    || (c == 12288)

unfoldable pub drop_spaces : List ℕ → List ℕ
drop_spaces [] = []
drop_spaces (c ∷ cs) = let rest = drop_spaces cs in if is_space c then rest else c ∷ cs

-- `s.strip()`.
unfoldable pub strip : List ℕ → List ℕ
strip cs = reverse (drop_spaces (reverse (drop_spaces cs)))

unfoldable pub is_digit : ℕ → Bool
is_digit c = leb b'0' c && leb c b'9'

-- Digits with single underscores between them; `after` says whether the last one read was a digit.
unfoldable pub digits_from : ℕ → Bool → List ℕ → Option ℕ
digits_from n after [] = if after then some n else none
digits_from n after (c ∷ cs) =
    let digit = digits_from (n * 10 + (c - b'0')) true cs in
    let underscore = digits_from n false cs in
    if is_digit c then digit else if (c == b'_') && after then underscore else none

abbrev signed : Bool → Option ℕ → Except ℤ
signed minus none = err value_error
signed true (some n) = ok (negative n)
signed false (some n) = ok (pos n)

-- A sign and digits. Of the digits outside ASCII, and of the limit on very long texts, the model
-- says nothing: it refuses the former and reads the latter.
abbrev stripped_int : List ℕ → Except ℤ
stripped_int [] = err value_error
stripped_int (c ∷ cs) =
    if c == b'-'
    then signed true (digits_from 0 false cs)
    else if c == b'+'
    then signed false (digits_from 0 false cs)
    else signed false (digits_from 0 false (c ∷ cs))

-- `int(s)` for a text.
unfoldable pub text_int : String → Except ℤ
text_int s = stripped_int (strip (codes s))
