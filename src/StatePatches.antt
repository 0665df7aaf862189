-- ===== src/StatePatches.antt =====
-- src/xian/utils/state_patches.py: the bundles of governed state patches, their hashes and their
-- records. json, hashlib, the contract compiler and the runtime's `convert_dict` are parameters.
pub mod Bundle
pub mod Schedule
pub mod Execution
pub mod Canonical
mod Tests
use Prim.Native.Char.{code}
use Prim.Native.String.{◌++◌ as text_append}
use xian_abci.Prelude.{
  ℕ, String, Bool, true, false, ◌||◌, if◌then◌else◌, ◌==◌, nat_eq, string_eq, Option, none, some,
  List, [], ◌∷◌, map, length,
}
use xian_abci.Prelude.Int.{ℤ, pos}
use xian_abci.Prelude.Bytes.{Bytes, utf8}
use xian_abci.Prelude.Sort.{sort_by}
use xian_abci.Result.{Except, ok, ◌>>=◌}
use xian_abci.Value.{
  Value, null, bool, int, str, arr, obj, Items, nil, cons, Fields, end, field, get_item,
}

-- What the module takes from packages.
pub record Packages : Type 0 where
  -- `json.dumps(v, sort_keys=True)`
  pub dumps : Value → String
  -- `json.dumps(v, sort_keys=True, separators=(",", ":"))`
  pub dumps_compact : Value → String
  -- the hexadecimal SHA-256 that `hash_bytes` of src/xian/utils/encoding.py asks hashlib for
  pub hexdigest : Bytes → String
  -- `str(v)`, as in an f-string
  pub text_of : Value → String
  -- the dict of artifacts for a contract's name and source
  pub build_contract_artifacts : String → Value → Except Value
  pub convert_dict : Value → Except Value
  -- `XIAN_VM_V1_IR_KEY`
  pub vm_ir_key : String

abbrev pub state_patch_bundle_version : ℤ
state_patch_bundle_version = pos 1

abbrev pub default_governance_contract : String
default_governance_contract = "governance"

abbrev put_head : String → List String → List String
put_head c [] = c ∷ []
put_head c (part ∷ parts) = text_append c part ∷ parts

-- `s.split(".")`.
unfoldable pub split_dots : String → List String
split_dots String.[] = "" ∷ []
split_dots (String.◌∷◌ c s) =
    let parts = split_dots s in
    if code c == b'.' then "" ∷ parts else put_head (String.◌∷◌ c "") parts

-- The contract's name, where the second part of a key is `__source__`.
abbrev pub source_contract : List String → Option String
source_contract [] = none
source_contract (contract ∷ []) = none
source_contract (contract ∷ part ∷ parts) = if part == "__source__" then some contract else none

-- `key.split(".", 1)[0]`.
abbrev pub contract_name : List String → String
contract_name [] = ""
contract_name (contract ∷ parts) = contract

-- One change of a bundle.
pub record Change : Type 0 where
  pub key : String
  pub value : Value
  pub comment : Value

abbrev pub items_of : List Value → Items
items_of [] = nil
items_of (v ∷ vs) = cons v (items_of vs)

-- `dict(change)`.
unfoldable pub change_dict : Change → Value
change_dict change =
    obj (
      field "key" (str change.key)
        (field "value" change.value (field "comment" change.comment end)))

unfoldable pub canonical_change : Change → Value
canonical_change change =
    obj (
      field "comment" change.comment
        (field "key" (str change.key) (field "value" change.value end)))

abbrev pub optional_text : Option String → Value
optional_text none = null
optional_text (some s) = str s

-- The dict that a bundle's hash is taken of.
pub record BundlePayload : Type 0 where
  pub version : Value
  pub patch_id : String
  pub activation_height : Value
  pub governance_contract : String
  pub chain_id : Option String
  pub summary : Value
  pub uri : Value
  pub changes : List Change

pub record StatePatchBundle : Type 0 where
  pub patch_id : String
  pub activation_height : Value
  pub governance_contract : String
  pub bundle_hash : String
  pub summary : Value
  pub uri : Value
  pub chain_id : Option String
  pub changes : List Change
  pub file_path : String

unfoldable pub to_inventory_record : StatePatchBundle → Value
to_inventory_record bundle = obj (
    field "patch_id" (str bundle.patch_id) (
      field "activation_height" bundle.activation_height (
        field "governance_contract" (str bundle.governance_contract) (
          field "bundle_hash" (str bundle.bundle_hash) (
            field "summary" bundle.summary (
              field "uri" bundle.uri (
                field "chain_id" (optional_text bundle.chain_id) (
                  field "change_count" (int (pos (length bundle.changes)))
                    (field "file_path" (str bundle.file_path) end)))))))))

module _ (packages : Packages) where
  unfoldable pub hash_text : String → String
  hash_text value = packages.hexdigest (utf8 value)

  -- `_hash_text(_canonical_json(v))`.
  abbrev pub hash_value : Value → String
  hash_value v = hash_text (packages.dumps_compact v)

  -- The source and the IR of a contract.
  unfoldable pub build_contract_artifacts_from_source : Change → Except (Value × Value)
  build_contract_artifacts_from_source change = do
    artifacts ←
        packages.build_contract_artifacts (contract_name (split_dots change.key)) change.value
    source ← get_item artifacts "source"
    vm_ir_json ← get_item artifacts "vm_ir_json"
    ok (source, vm_ir_json)

  abbrev pub serialized_change : String × Value → String × String
  serialized_change (key, value) = (key, packages.dumps value)

  abbrev pub serialized_dict : String × String → Value
  serialized_dict (key, value) = obj (field "key" (str key) (field "value" (str value) end))

  unfoldable pub hash_from_state_changes : List (String × Value) → String
  hash_from_state_changes state_changes = hash_value (
      arr (
        items_of
          (map serialized_dict (sort_by (λ item. item.0) (map serialized_change state_changes)))))

  unfoldable pub hash_from_bundle_payload : BundlePayload → String
  hash_from_bundle_payload payload = hash_value (
      obj (
        field "activation_height" payload.activation_height (
          field "chain_id" (optional_text payload.chain_id) (
            field "changes"
              (arr
                (items_of (map canonical_change (sort_by (λ change. change.key) payload.changes))))
              (field "governance_contract" (str payload.governance_contract) (
                field "patch_id" (str payload.patch_id) (
                  field "summary" payload.summary
                    (field "uri" payload.uri (field "version" payload.version end)))))))))
