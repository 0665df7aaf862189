-- ===== src/Transaction/Rules.antt =====
-- src/xian/formatting.py and src/xian/utils/tx.py: the table of rules, and its check on a dict.
use text.Mathlib.Text.{◌==◌ as str_eqb, find?}
use xian_abci.Prelude.{
  String, Bool, true, false, not, ◌&&◌, ◌||◌, all, Option, none, some, List, [], ◌∷◌, if◌then◌else◌,
}
use xian_abci.Result.{
  Except, ok, err, transaction, type_error, unexpected_keys, wrong_format, raise_if, ◌>>=◌, ◌>>◌,
}
use xian_abci.Value.{
  Value, str, arr, obj, Items, nil, cons, Fields, keys, lookup_field, equals_text,
}
use xian_abci.Formatting.{
  vk_is_formatted, signature_is_formatted, identifier_is_formatted, kwargs_are_formatted,
  number_is_formatted, cid_id_formated,
}

-- A rule is a callable or a dict of rules.
mutual
  pub data Rule : Type 0 where
    call : (Value → Bool) → Rule
    table : RuleFields → Rule

  pub data RuleFields : Type 0 where
    no_rules : RuleFields
    rule : String → Rule → RuleFields → RuleFields

abbrev pub rule_keys : RuleFields → List String
rule_keys no_rules = []
rule_keys (rule key sub rest) = key ∷ rule_keys rest

unfoldable pub member : String → List String → Bool
member k [] = false
member k (j ∷ js) = str_eqb j k || member k js

-- `key in items`.
abbrev item_member : String → Items → Bool
item_member key nil = false
item_member key (cons v vs) = equals_text v key || item_member key vs

abbrev all_items : (Value → Except Bool) → Items → Except Bool
all_items p nil = ok true
all_items p (cons v vs) = do
  good ← p v
  (let rest = all_items p vs in if good then rest else ok false)

-- `d[key]` after `key not in d`: `none` where the key is not there. On a list and on a text the
-- test looks for an item and for a part, and the subscript raises; on the rest the test raises.
abbrev find_item : Value → String → Except (Option Value)
find_item (obj fs) key = ok (lookup_field key fs)
find_item (arr vs) key = if item_member key vs then err type_error else ok none
find_item (str s) key = elim (find? s key) [ none ↦ ok none | some _ ↦ err type_error ]
find_item _ key = err type_error

abbrev pub and_then : Except Bool → Except Bool → Except Bool
and_then (ok true) rest = rest
and_then r rest = r

unfoldable mutual
  pub recurse_rules : Rule → Value → Except Bool
  recurse_rules (call test) d = ok (test d)
  recurse_rules (table fields) d = recurse_fields fields d

  -- The loop over `rule.items()`.
  pub recurse_fields : RuleFields → Value → Except Bool
  recurse_fields no_rules d = ok true
  recurse_fields (rule key sub rest) d = find_item d key >>= λ found. elim found [
    | none ↦ ok false
    | some arg ↦ and_then (recurse_argument sub arg) (recurse_fields rest d)
  ]

  -- One subrule on one argument: a table is checked on a dict, or on each item of a list.
  pub recurse_argument : Rule → Value → Except Bool
  recurse_argument (call test) arg = ok (test arg)
  recurse_argument (table fields) (obj fs) = recurse_fields fields (obj fs)
  recurse_argument (table fields) (arr vs) = all_items (λ a. recurse_fields fields a) vs
  recurse_argument (table fields) _ = ok false

abbrev pub transaction_payload_rules : RuleFields
transaction_payload_rules = rule "sender" (call vk_is_formatted) (
    rule "nonce" (call number_is_formatted) (
      rule "chi_supplied" (call number_is_formatted) (
        rule "contract" (call identifier_is_formatted) (
          rule "function" (call identifier_is_formatted) (
            rule "kwargs" (call kwargs_are_formatted)
              (rule "chain_id" (call cid_id_formated) no_rules))))))

abbrev pub transaction_metadata_rules : RuleFields
transaction_metadata_rules = rule "signature" (call signature_is_formatted) no_rules

abbrev pub transaction_rules : RuleFields
transaction_rules =
    rule "metadata" (table transaction_metadata_rules)
      (rule "payload" (table transaction_payload_rules) no_rules)

abbrev pub transaction_payload_keys : List String
transaction_payload_keys = rule_keys transaction_payload_rules

-- `set(d) == keys`. `set` of a list or a text would hold other things than the keys.
unfoldable pub dict_has_keys : Fields → List String → Bool
dict_has_keys d expected =
    all (λ k. member k expected) (keys d) && all (λ k. member k (keys d)) expected

-- `check_format` on a dict.
unfoldable pub check_format : Fields → RuleFields → Except (Unit {0})
check_format d rules = do
  raise_if (not (dict_has_keys d (rule_keys rules))) (transaction unexpected_keys)
  formatted ← recurse_rules (table rules) (obj d)
  raise_if (not formatted) (transaction wrong_format)
