-- ===== src/StatePatches/Bundle.antt =====
-- The loading of patch bundles: `load_patches` and `_load_bundle_file` of
-- src/xian/utils/state_patches.py.
pub mod Loaded
use Prim.Native.String.{◌++◌ as text_append}
use xian_abci.Prelude.{
  ℕ, String, Bool, true, false, not, ◌&&◌, ◌||◌, all, leb, length, if◌then◌else◌, ◌==◌, nat_eq,
  string_eq, Option, none, some, List, [], ◌∷◌, map,
}
use xian_abci.Prelude.Int.{ℤ, pos, ltb_ℤ}
use xian_abci.Prelude.Dict.{Dict, lookup, insert, contains}
use xian_abci.Prelude.Sort.{sort_by}
use xian_abci.Result.{Except, ok, err, Failure, value_error, foreign, raise_if, ◌>>=◌, ◌>>◌}
use xian_abci.Value.{
  Value, null, bool, int, str, arr, obj, Items, nil, cons, Fields, equals_int, lookup_field,
  get_field,
}
use xian_abci.Value.Number.{codes}
use xian_abci.StateRoot.Hashing.{execution_policy_key}
use xian_abci.Transaction.{get_method}
use xian_abci.StatePatches.{
  Packages, Change, BundlePayload, StatePatchBundle, state_patch_bundle_version,
  to_inventory_record, hash_from_bundle_payload,
}

abbrev is_lower_or_digit : ℕ → Bool
is_lower_or_digit c = (leb b'a' c && leb c b'z') || (leb b'0' c && leb c b'9')

-- `PATCH_ID_PATTERN.fullmatch`.
unfoldable pub matches_patch_id : List ℕ → Bool
matches_patch_id [] = false
matches_patch_id (c ∷ cs) =
    is_lower_or_digit c
    && all (λ d. is_lower_or_digit d || (d == b'_') || (d == b'-')) cs
    && leb 2 (length cs)
    && leb (length cs) 127

-- `isinstance(v, int)` and positive; a bool is an int.
unfoldable pub positive_height : Value → Bool
positive_height (int i) = ltb_ℤ (pos 0) i
positive_height (bool b) = b
positive_height _ = false

-- A text that passes a test.
abbrev pub expect_text : (String → Bool) → Value → Except String
expect_text test (str s) = raise_if (not (test s)) value_error >> ok s
expect_text test _ = err value_error

abbrev pub non_empty : String → Bool
non_empty s = not (s == "")

abbrev pub expect_chain_id : Value → Except (Option String)
expect_chain_id null = ok none
expect_chain_id v = do s ← expect_text non_empty v; ok (some s)

abbrev pub expect_changes : Value → Except Items
expect_changes (arr (cons v vs)) = ok (cons v vs)
expect_changes _ = err value_error

-- `s.endswith(t)`.
unfoldable pub ends_with : String → String → Bool
ends_with String.[] t = String.[] == t
ends_with (String.◌∷◌ c s) t = (String.◌∷◌ c s == t) || ends_with s t

abbrev pub seen : String → List String → Bool
seen key [] = false
seen key (j ∷ keys) = (j == key) || seen key keys

-- The keys that no patch may write.
unfoldable pub is_protected : String → String → Bool
is_protected vm_ir_key key =
    key == execution_policy_key
    || ends_with key ".__code__"
    || ends_with key (text_append "." vm_ir_key)

abbrev pub with_default : Value → Option Value → Value
with_default default none = default
with_default default (some v) = v

unfoldable pub normalize_change : String → List String → Value → Except Change
normalize_change vm_ir_key seen_keys (obj raw_change) = do
  key ← expect_text non_empty (get_field "key" raw_change)
  raise_if (seen key seen_keys) value_error
  raise_if (is_protected vm_ir_key key) value_error
  ok (record {
    key = key;
    value = get_field "value" raw_change;
    comment = with_default (str "") (lookup_field "comment" raw_change);
  })
normalize_change vm_ir_key seen_keys _ = err value_error

unfoldable pub normalize_changes : String → List String → Items → Except (List Change)
normalize_changes vm_ir_key seen_keys nil = ok []
normalize_changes vm_ir_key seen_keys (cons raw_change changes) = do
  change ← normalize_change vm_ir_key seen_keys raw_change
  rest ← normalize_changes vm_ir_key (change.key ∷ seen_keys) changes
  ok (change ∷ rest)

-- The state of a `StatePatchManager`, besides the driver and the names it is made with.
pub record Inventory : Type 0 where
  pub local_bundles : Dict String StatePatchBundle
  pub loaded : Bool

-- What stands at the patch path; `folder` has the sorted `*.json` files.
pub data Location : Type 0 where
  missing : Location
  file : String → Location
  folder : List String → Location

module _ (packages : Packages) where
  abbrev pub bundle_of : BundlePayload → String → StatePatchBundle
  bundle_of payload file_path = record {
    patch_id = payload.patch_id;
    activation_height = payload.activation_height;
    governance_contract = payload.governance_contract;
    bundle_hash = hash_from_bundle_payload packages payload;
    summary = payload.summary;
    uri = payload.uri;
    chain_id = payload.chain_id;
    changes = payload.changes;
    file_path = file_path;
  }

  -- The checks of a bundle's file, and the payload that its hash is taken of.
  unfoldable pub read_payload : String → Value → Except BundlePayload
  read_payload governance_contract payload = do
    version ← get_method payload "version" null
    raise_if (not (equals_int version state_patch_bundle_version)) value_error
    given_id ← get_method payload "patch_id" null
    patch_id ← expect_text (λ s. matches_patch_id (codes s)) given_id
    activation_height ← get_method payload "activation_height" null
    raise_if (not (positive_height activation_height)) value_error
    given_contract ← get_method payload "governance_contract" (str governance_contract)
    contract ← expect_text non_empty given_contract
    given_chain ← get_method payload "chain_id" null
    chain_id ← expect_chain_id given_chain
    given_changes ← get_method payload "changes" null
    raw_changes ← expect_changes given_changes
    changes ← normalize_changes packages.vm_ir_key [] raw_changes
    summary ← get_method payload "summary" (str "")
    uri ← get_method payload "uri" (str "")
    ok (record {
      version = version;
      patch_id = patch_id;
      activation_height = activation_height;
      governance_contract = contract;
      chain_id = chain_id;
      summary = summary;
      uri = uri;
      changes = changes;
    })

  -- `read_json` reads and parses a file, `resolve` makes its path absolute.
  module _ (read_json : String → Except Value) (resolve : String → String)
      (governance_contract : String) where
    unfoldable pub load_bundle_file : String → Except StatePatchBundle
    load_bundle_file bundle_file = do
      json ← read_json bundle_file
      payload ← read_payload governance_contract json
      ok (bundle_of payload (resolve bundle_file))

    unfoldable pub load_files :
        List String → Dict String StatePatchBundle → Except (Dict String StatePatchBundle)
    load_files [] bundles = ok bundles
    load_files (bundle_file ∷ bundle_files) bundles = do
      bundle ← load_bundle_file bundle_file
      raise_if (contains bundle.patch_id bundles) value_error
      load_files bundle_files (insert bundle.patch_id bundle bundles)

    abbrev pub settle : Except (Dict String StatePatchBundle) → Except (Unit {0}) × Inventory
    settle (err e) = (err e, record { local_bundles = []; loaded = false })
    settle (ok bundles) = (ok tt, record { local_bundles = bundles; loaded = true })

    unfoldable pub load_patches : Location → Except (Unit {0}) × Inventory
    load_patches missing = (ok tt, record { local_bundles = []; loaded = true })
    load_patches (file path) = settle (load_files (path ∷ []) [])
    load_patches (folder bundle_files) = settle (load_files bundle_files [])

-- `_require_loaded`; the `RuntimeError` is Python's own.
abbrev pub require_loaded : Inventory → Except (Unit {0})
require_loaded inventory = raise_if (not inventory.loaded) (foreign "RuntimeError")

abbrev pub values : Dict String StatePatchBundle → List StatePatchBundle
values [] = []
values ((patch_id, bundle) ∷ bundles) = bundle ∷ values bundles

unfoldable pub get_local_bundle_inventory : Inventory → Except (List Value)
get_local_bundle_inventory inventory = do
  require_loaded inventory
  ok (
      map to_inventory_record
        (sort_by (λ bundle. bundle.patch_id) (values inventory.local_bundles)))
