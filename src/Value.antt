-- ===== src/Value.antt =====
-- The Python values that a transaction is made of, as `json.loads` builds them, with the operations
-- that the sources use on them: truth, equality with an int, `int()`, `d[k]`, `d.get(k)`.
pub mod Number
use xian_abci.Prelude.{
  ℕ, zero, suc, ◌*◌, ◌/◌, ◌^◌, String, Bool, true, false, not, ◌&&◌, ◌||◌, if◌then◌else◌, ◌==◌,
  string_eq, nat_eq, Option, none, some, List, [], ◌∷◌, ◌++◌,
}
use xian_abci.Prelude.Int.{ℤ, pos, negsuc, eqb_ℤ, int_eq}
use xian_abci.Prelude.Text.{text_ltb}
use xian_abci.Result.{Except, ok, err, value_error, type_error, key_error, overflow_error}
use xian_abci.Value.Number.{Float, float_truth, float_int, float_eq, text_int}

mutual
  -- A dict in insertion order.
  pub data Fields : Type 0 where
    end : Fields
    field : String → Value → Fields → Fields

  pub data Items : Type 0 where
    nil : Items
    cons : Value → Items → Items

  pub data Value : Type 0 where
    null : Value
    bool : Bool → Value
    int : ℤ → Value
    float : Float → Value
    str : String → Value
    obj : Fields → Value
    arr : Items → Value

-- `bool(v)`.
unfoldable pub truth : Value → Bool
truth null = false
truth (bool b) = b
truth (int i) = not (eqb_ℤ i (pos 0))
truth (float x) = float_truth x
truth (str s) = not (s == "")
truth (arr nil) = false
truth (arr (cons v vs)) = true
truth (obj end) = false
truth (obj (field k v fs)) = true

-- `v == n` for an int `n`.
unfoldable pub equals_int : Value → ℤ → Bool
equals_int null n = false
equals_int (bool true) n = eqb_ℤ (pos 1) n
equals_int (bool false) n = eqb_ℤ (pos 0) n
equals_int (int i) n = eqb_ℤ i n
equals_int (float x) n = float_eq x n
equals_int (str s) n = false
equals_int (arr vs) n = false
equals_int (obj fs) n = false

-- `v == t` for a text `t`.
unfoldable pub equals_text : Value → String → Bool
equals_text (str s) t = s == t
equals_text _ t = false

-- `int(v)`.
unfoldable pub to_int : Value → Except ℤ
to_int null = err type_error
to_int (bool true) = ok (pos 1)
to_int (bool false) = ok (pos 0)
to_int (int i) = ok i
to_int (float x) = float_int x
to_int (str s) = text_int s
to_int (arr vs) = err type_error
to_int (obj fs) = err type_error

unfoldable pub lookup_field : String → Fields → Option Value
lookup_field k end = none
lookup_field k (field j v fs) = if j == k then some v else lookup_field k fs

-- `d.get(k)` on a dict, with `None` as the default.
abbrev pub get_field : String → Fields → Value
get_field k fs = elim (lookup_field k fs) [ none ↦ null | some v ↦ v ]

-- `d[k]` for a text `k`.
unfoldable pub get_item : Value → String → Except Value
get_item (obj fs) k = elim (lookup_field k fs) [ none ↦ err key_error | some v ↦ ok v ]
get_item _ k = err type_error

-- `list(d)`.
abbrev pub keys : Fields → List String
keys end = []
keys (field k v fs) = k ∷ keys fs

-- `dict(sorted(items))`: the keys differ, so that the order is theirs alone.
unfoldable pub insert_sorted : String → Value → Fields → Fields
insert_sorted k v end = field k v end
insert_sorted k v (field j w fs) =
    let rest = insert_sorted k v fs in
    if text_ltb k j then field k v (field j w fs) else field j w rest
