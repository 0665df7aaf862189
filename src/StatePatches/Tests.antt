-- ===== src/StatePatches/Tests.antt =====
-- A folder with one bundle, and the governed record of it, run through
-- src/xian/utils/state_patches.py.
mod Memory
use Prim.Native.String.{◌++◌ as text_append}
use Prim.Native.String.append
use mathlib.Core.List.{Permᴰ}
use mathlib.Core.Path.{subst}
use text.Mathlib.Text.{starts_with}
use xian_abci.Prelude.{
  String, ◌≡◌, ◌≢◌, refl, true, false, Option, none, some, List, [], ◌∷◌, string_eq, neq_of_false,
  if◌then◌else◌, arith, ◌==◌, ◌&&◌, ◌∙◌, Bool-cases, inl, inr, ℕ,
}
use xian_abci.Prelude.Text.{text_ltb}
use xian_abci.Prelude.Int.{pos}
use xian_abci.Prelude.Dict.{Dict, lookup, insert, lookup-insert}
use xian_abci.Prelude.Sort.{insert_by, sort_by}
use xian_abci.Result.{Except, ok, Holds}
use xian_abci.Value.Number.{codes}
use xian_abci.Value.{
  Value, null, bool, int, str, arr, obj, nil, cons, end, field, truth, lookup_field, equals_int,
  get_item,
}
use xian_abci.StatePatches.{
  Packages, Change, BundlePayload, StatePatchBundle, split_dots, hash_from_state_changes,
  hash_from_bundle_payload, hash_text, build_contract_artifacts_from_source,
}
use xian_abci.StatePatches.Bundle.{
  matches_patch_id, positive_height, ends_with, is_protected, normalize_change, normalize_changes,
  Inventory, folder, read_payload, load_bundle_file, load_files, load_patches,
}
use xian_abci.StatePatches.Bundle.Loaded.{Settled, load_patches-Settled}
use xian_abci.StatePatches.Schedule.{
  Driver, ScheduledPatchRecord, drop_prefix, read_record, read_item, read_items,
  read_scheduled_patch_records,
}
use xian_abci.StatePatches.Execution.{
  PatchExecution, Block, validate_bundle_against_record, collect_changes, build_applied_changes,
  hash_from_execution_payload, build_execution, build_each, build_executions,
  apply_patches_for_block,
}
use xian_abci.StatePatches.Execution.Consistent.{Built, build_executions-Consistent}
use xian_abci.StatePatches.Execution.Atomic.{AllOrNothing, apply_patches-AllOrNothing}
use xian_abci.StatePatches.Execution.Writes.{Converts}
use xian_abci.StatePatches.Execution.Status.{
  DriverLaws, Spares, OnceApplied, apply_patches-OnceApplied,
}
use xian_abci.StatePatches.Canonical.{state_changes_hash_reordered, patch_hashes_reordered}
use xian_abci.StatePatches.Tests.Memory.{packages, Store, driver, laws}

abbrev payload : Value
payload = obj (
    field "version" (int (pos 1)) (
      field "patch_id" (str "fix-1") (
        field "activation_height" (int (pos 5)) (
          field "changes"
            (arr (
              cons (obj (field "key" (str "con.x") (field "value" (int (pos 3)) end))) (
                cons (obj (field "key" (str "con.__source__") (field "value" (str "code") end)))
                  nil)))
            end))))

abbrev read_json : String → Except Value
read_json file_path = ok payload

abbrev x_change : Change
x_change = record { key = "con.x"; value = int (pos 3); comment = str "" }

abbrev source_change : Change
source_change = record { key = "con.__source__"; value = str "code"; comment = str "" }

abbrev ir_change : Change
ir_change = record { key = "con.ir"; value = str "con"; comment = str "Persisted VM IR for 5" }

abbrev bundle : StatePatchBundle
bundle = record {
  patch_id = "fix-1";
  activation_height = int (pos 5);
  governance_contract = "governance";
  bundle_hash = "digest";
  summary = str "";
  uri = str "";
  chain_id = none;
  changes = x_change ∷ source_change ∷ [];
  file_path = "/a.json";
}

abbrev inventory : Inventory
inventory = record { local_bundles = ("fix-1", bundle) ∷ []; loaded = true }

loads :
    load_patches packages read_json (λ p. "/a.json") "governance" (folder ("a.json" ∷ []))
    ≡ (ok tt, inventory)
unfolding load_patches load_files load_bundle_file read_payload normalize_changes normalize_change
    is_protected ends_with positive_height matches_patch_id lookup insert hash_from_bundle_payload
    hash_text equals_int lookup_field sort_by insert_by text_ltb
loads = refl

load_patches-Settled_example :
    Settled packages read_json
      (λ p. "/a.json")
      "governance"
      (load_patches packages read_json (λ p. "/a.json") "governance" (folder ("a.json" ∷ [])))
load_patches-Settled_example =
    load_patches-Settled packages read_json (λ p. "/a.json") "governance" (folder ("a.json" ∷ []))

-- The patch is scheduled for block 5 and approved.
abbrev store : Store
store = (
  ("governance.scheduled_patches:5:fix-1", bool true) ∷ [],
  (
    "fix-1",
    ("status", str "approved")
        ∷ ("proposal_id", int (pos 7))
        ∷ ("bundle_hash", str "digest")
        ∷ ("activation_height", int (pos 5))
        ∷ [],
  )
      ∷ [],
)

abbrev patch : ScheduledPatchRecord
patch = record {
  patch_id = "fix-1";
  proposal_id = int (pos 7);
  bundle_hash = "digest";
  activation_height = int (pos 5);
  governance_contract = "governance";
  summary = str "";
  uri = str "";
  emergency = false;
  status = "approved";
}

abbrev execution : PatchExecution
execution = record {
  patch = patch;
  bundle = bundle;
  execution_hash = "digest";
  applied_changes = source_change ∷ ir_change ∷ x_change ∷ [];
}

builds :
    build_executions packages driver none "governance" (pos 5) false inventory store
    ≡ ok (execution ∷ [])
unfolding build_executions build_each build_execution read_scheduled_patch_records read_items
    read_item read_record drop_prefix validate_bundle_against_record build_applied_changes
    collect_changes build_contract_artifacts_from_source split_dots lookup lookup_field get_item
    truth equals_int sort_by insert_by text_ltb hash_from_execution_payload hash_text
builds = refl

build_executions-Consistent_example :
    Holds
      (Built packages driver none "governance" inventory (pos 5) false store)
      (build_executions packages driver none "governance" (pos 5) false inventory store)
build_executions-Consistent_example =
    build_executions-Consistent packages driver none "governance" inventory (pos 5) false store

abbrev block : Block
block = record { height = pos 5; nanos = pos 17; block_hash = none }

abbrev converts : Converts packages
converts = λ fs. (obj fs, refl)

apply_patches-AllOrNothing_example :
    AllOrNothing packages driver none "governance" converts block store
      (build_executions packages driver none "governance" (pos 5) false inventory store)
      (apply_patches_for_block packages driver none "governance" block inventory store)
apply_patches-AllOrNothing_example =
    apply_patches-AllOrNothing packages driver none "governance" converts block inventory store

spares : Spares packages driver none "governance" converts laws (execution ∷ [])
spares =
    λ patch_id. ((neq_of_false "" "con.x" refl, (neq_of_false "" "con.__source__" refl, tt)), tt)

apply_patches-OnceApplied_example :
    OnceApplied packages driver none "governance" converts laws
      (pos 5)
      (bool true)
      (execution ∷ [])
      (apply_patches_for_block packages driver none "governance" block inventory store)
apply_patches-OnceApplied_example =
    apply_patches-OnceApplied packages driver none "governance" converts laws block inventory store
      (execution ∷ []) (pos 5) (bool true) builds spares

abbrev swapped {ℓ} : {A : Type ℓ} (x y : A) → Permᴰ (x ∷ y ∷ []) (y ∷ x ∷ [])
swapped x y = Permᴰ.swap refl refl

state_changes_hash_reordered_example :
    hash_from_state_changes packages (("b", null) ∷ ("a", bool true) ∷ [])
    ≡ hash_from_state_changes packages (("a", bool true) ∷ ("b", null) ∷ [])
state_changes_hash_reordered_example =
    state_changes_hash_reordered packages (swapped ("b", null) ("a", bool true))
      ((neq_of_false "b" "a" refl, tt), (tt, tt))

abbrev bundle_payload : BundlePayload
bundle_payload = record {
  version = int (pos 1);
  patch_id = "fix-1";
  activation_height = int (pos 5);
  governance_contract = "governance";
  chain_id = none;
  summary = str "";
  uri = str "";
  changes = [];
}

patch_hashes_reordered_example :
    (hash_from_bundle_payload packages
        (record bundle_payload { changes = x_change ∷ source_change ∷ [] })
      ≡ hash_from_bundle_payload packages
          (record bundle_payload { changes = source_change ∷ x_change ∷ [] }))
    × (hash_from_execution_payload packages patch (x_change ∷ source_change ∷ [])
        ≡ hash_from_execution_payload packages patch (source_change ∷ x_change ∷ []))
patch_hashes_reordered_example =
    patch_hashes_reordered packages bundle_payload patch (x_change ∷ source_change ∷ [])
      (source_change ∷ x_change ∷ []) (swapped x_change source_change)
      ((neq_of_false "con.x" "con.__source__" refl, tt), (tt, tt))
