-- ===== src/StatePatches/Schedule.antt =====
-- The governed patches of a height, read from the contract state: `_read_scheduled_patch_records`
-- of src/xian/utils/state_patches.py. The driver is a parameter, and is there.
pub mod Governed
use Prim.Native.String.{◌++◌ as text_append}
use xian_abci.Prelude.{
  String, Bool, true, false, not, ◌&&◌, ◌||◌, if◌then◌else◌, ◌==◌, string_eq, Option, none, some,
  List, [], ◌∷◌, map,
}
use xian_abci.Prelude.Int.{ℤ}
use xian_abci.Prelude.Dict.{Dict, lookup}
use xian_abci.Prelude.Sort.{sort_by}
use xian_abci.Result.{Except, ok, err, value_error, type_error, raise_if, ◌>>=◌, ◌>>◌}
use xian_abci.Value.{Value, null, bool, int, str, arr, obj, field, end, truth, equals_int}
use xian_abci.StatePatches.{Packages, StatePatchBundle}
use xian_abci.StatePatches.Bundle.{Inventory, require_loaded, expect_text, non_empty}

-- The contract state behind the raw driver.
pub record Driver : Type 1 where
  pub Store : Type 0
  -- the items whose keys have a prefix
  pub items : String → Store → Dict String Value
  -- a variable of a contract at some arguments; `None` where there is none
  pub get_var : String → String → List String → Store → Value
  pub set_var : String → String → List String → Value → Store → Store
  pub set : String → Value → Store → Store

pub record ScheduledPatchRecord : Type 0 where
  pub patch_id : String
  pub proposal_id : Value
  pub bundle_hash : String
  pub activation_height : Value
  pub governance_contract : String
  pub summary : Value
  pub uri : Value
  pub emergency : Bool
  pub status : String

abbrev pub path_of : Option StatePatchBundle → Value
path_of none = null
path_of (some bundle) = str bundle.file_path

abbrev pub is_some : Option StatePatchBundle → Bool
is_some none = false
is_some (some bundle) = true

unfoldable pub to_dict : Option StatePatchBundle → ScheduledPatchRecord → Value
to_dict local_bundle patch = obj (
    field "patch_id" (str patch.patch_id) (
      field "proposal_id" patch.proposal_id (
        field "bundle_hash" (str patch.bundle_hash) (
          field "activation_height" patch.activation_height (
            field "governance_contract" (str patch.governance_contract) (
              field "summary" patch.summary (
                field "uri" patch.uri (
                  field "emergency" (bool patch.emergency) (
                    field "status" (str patch.status) (
                      field "local_bundle_available" (bool (is_some local_bundle))
                        (field "local_file_path" (path_of local_bundle) end)))))))))))

-- `s[len(prefix):]`.
unfoldable pub drop_prefix : String → String → String
drop_prefix String.[] s = s
drop_prefix (String.◌∷◌ c prefix) String.[] = String.[]
drop_prefix (String.◌∷◌ c prefix) (String.◌∷◌ d s) = drop_prefix prefix s

-- `status in {"approved", "applied"}`; a list or a dict has no hash.
abbrev pub known_status : Value → Except (Option String)
known_status (str s) = ok (if (s == "approved") || (s == "applied") then some s else none)
known_status (arr vs) = err type_error
known_status (obj fs) = err type_error
known_status _ = ok none

-- `v or ""`.
abbrev pub or_empty : Value → Value
or_empty v = if truth v then v else str ""

abbrev pub is_int : Value → Bool
is_int (int i) = true
is_int (bool b) = true
is_int _ = false

module _ (driver : Driver) where
  -- `get_var(governance_contract, "patches", [patch_id, name])`.
  abbrev pub patch_var : String → String → String → driver.Store → Value
  patch_var governance_contract patch_id name =
      driver.get_var governance_contract "patches" (patch_id ∷ name ∷ [])

  -- The record of a patch whose status counts.
  unfoldable pub read_record :
      String → ℤ → driver.Store → String → String → Except ScheduledPatchRecord
  read_record governance_contract height store patch_id status = do
    let proposal_id = patch_var governance_contract patch_id "proposal_id" store
    let activation_height = patch_var governance_contract patch_id "activation_height" store
    raise_if (not (is_int proposal_id)) value_error
    bundle_hash ← expect_text non_empty (patch_var governance_contract patch_id "bundle_hash" store)
    raise_if (not (equals_int activation_height height)) value_error
    ok (record {
      patch_id = patch_id;
      proposal_id = proposal_id;
      bundle_hash = bundle_hash;
      activation_height = activation_height;
      governance_contract = governance_contract;
      summary = or_empty (patch_var governance_contract patch_id "summary" store);
      uri = or_empty (patch_var governance_contract patch_id "uri" store);
      emergency = truth (patch_var governance_contract patch_id "emergency" store);
      status = status;
    })

  -- The applied patches are left out unless they are asked for.
  abbrev pub read_known :
      String
      → ℤ
      → Bool
      → driver.Store
      → String
      → Option String
      → Except (Option ScheduledPatchRecord)
  read_known governance_contract height include_applied store patch_id none = ok none
  read_known governance_contract height include_applied store patch_id (some status) =
      if (status == "applied") && not include_applied then ok none else (do
        patch ← read_record governance_contract height store patch_id status
        ok (some patch))

  unfoldable pub read_item :
      String → ℤ → Bool → driver.Store → String → Value → Except (Option ScheduledPatchRecord)
  read_item governance_contract height include_applied store patch_id scheduled =
      if not (truth scheduled) then ok none else (do
        status ← known_status (patch_var governance_contract patch_id "status" store)
        read_known governance_contract height include_applied store patch_id status)

  abbrev pub add_some :
      Option ScheduledPatchRecord → List ScheduledPatchRecord → List ScheduledPatchRecord
  add_some none records = records
  add_some (some patch) records = patch ∷ records

  unfoldable pub read_items :
      String
      → ℤ
      → Bool
      → driver.Store
      → String
      → Dict String Value
      → Except (List ScheduledPatchRecord)
  read_items governance_contract height include_applied store prefix [] = ok []
  read_items governance_contract height include_applied store prefix ((key, scheduled) ∷ items) = do
    found ←
        read_item governance_contract height include_applied store (drop_prefix prefix key)
          scheduled
    records ← read_items governance_contract height include_applied store prefix items
    ok (add_some found records)

  module _ (packages : Packages) (governance_contract : String) where
    -- `f"{governance_contract}.scheduled_patches:{height}:"`
    abbrev pub scheduled_prefix : ℤ → String
    scheduled_prefix height =
        text_append governance_contract
          (text_append ".scheduled_patches:" (text_append (packages.text_of (int height)) ":"))

    unfoldable pub read_scheduled_patch_records :
        ℤ → Bool → driver.Store → Except (List ScheduledPatchRecord)
    read_scheduled_patch_records height include_applied store = do
      records ←
          (read_items governance_contract height include_applied store (scheduled_prefix height)
            (driver.items (scheduled_prefix height) store))
      ok (sort_by (λ patch. patch.patch_id) records)

    unfoldable pub get_scheduled_patch_inventory :
        ℤ → Inventory → driver.Store → Except (List Value)
    get_scheduled_patch_inventory height inventory store = do
      require_loaded inventory
      records ← read_scheduled_patch_records height true store
      ok (map (λ patch. to_dict (lookup patch.patch_id inventory.local_bundles) patch) records)
