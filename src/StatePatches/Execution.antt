-- ===== src/StatePatches/Execution.antt =====
-- The execution of the patches of a block: `_build_executions`, `build_applied_patches_for_block`
-- and `apply_patches_for_block` of src/xian/utils/state_patches.py, without logging.
pub mod Consistent
pub mod Writes
pub mod Atomic
pub mod Status
use Prim.Native.String.{◌++◌ as text_append}
use xian_abci.Prelude.{
  String, Bool, true, false, not, if◌then◌else◌, ◌==◌, string_eq, Option, none, some, List, [], ◌∷◌,
  ◌++◌, map,
}
use xian_abci.Prelude.Int.{ℤ, pos}
use xian_abci.Prelude.Dict.{lookup}
use xian_abci.Prelude.Sort.{sort_by}
use xian_abci.Result.{Except, ok, err, value_error, foreign, raise_if, ◌>>=◌, ◌>>◌}
use xian_abci.Value.{Value, null, bool, int, float, str, arr, obj, field, end, equals_int}
use xian_abci.StatePatches.{
  Packages, Change, StatePatchBundle, split_dots, source_contract, change_dict, canonical_change,
  items_of, optional_text, hash_value, build_contract_artifacts_from_source,
}
use xian_abci.StatePatches.Bundle.{Inventory, require_loaded}
use xian_abci.StatePatches.Schedule.{Driver, ScheduledPatchRecord, read_scheduled_patch_records}

pub record PatchExecution : Type 0 where
  pub patch : ScheduledPatchRecord
  pub bundle : StatePatchBundle
  pub execution_hash : String
  pub applied_changes : List Change

unfoldable pub to_payload_dict : PatchExecution → Value
to_payload_dict execution =
    let patch = execution.patch in
    obj (
      field "patch_id" (str patch.patch_id) (
        field "proposal_id" patch.proposal_id (
          field "bundle_hash" (str patch.bundle_hash) (
            field "execution_hash" (str execution.execution_hash) (
              field "activation_height" patch.activation_height (
                field "governance_contract" (str patch.governance_contract) (
                  field "summary" patch.summary (
                    field "uri" patch.uri (
                      field "emergency" (bool patch.emergency) (
                        field "changes" (arr (items_of (map change_dict execution.applied_changes)))
                          end))))))))))

-- `bundle.activation_height == height`: the height of a bundle is an int.
abbrev pub same_height : Value → Value → Bool
same_height (int i) height = equals_int height i
same_height (bool true) height = equals_int height (pos 1)
same_height (bool false) height = equals_int height (pos 0)
same_height _ height = false

-- A bundle without a chain id is for every chain.
abbrev pub for_chain : Option String → Option String → Bool
for_chain none chain_id = true
for_chain (some target) none = false
for_chain (some target) (some chain) = chain == target

unfoldable pub validate_bundle_against_record :
    Option String → StatePatchBundle → ScheduledPatchRecord → Except (Unit {0})
validate_bundle_against_record chain_id bundle patch = do
  raise_if (not (bundle.bundle_hash == patch.bundle_hash)) value_error
  raise_if (not (same_height bundle.activation_height patch.activation_height)) value_error
  raise_if (not (bundle.governance_contract == patch.governance_contract)) value_error
  raise_if (not (for_chain bundle.chain_id chain_id)) value_error

-- What a block records of the patches that it applies.
pub record Block : Type 0 where
  pub height : ℤ
  pub nanos : ℤ
  pub block_hash : Option String

module _ (packages : Packages) where
  abbrev pub ir_key : String → String
  ir_key contract = text_append contract (text_append "." packages.vm_ir_key)

  -- A source is stored as the compiler writes it, and its IR beside it.
  abbrev pub applied_source : String → Change → Value × Value → List Change
  applied_source contract change (normalized_source, vm_ir_json) =
      record change { value = normalized_source }
      ∷ record {
        key = ir_key contract;
        value = vm_ir_json;
        comment = str (text_append "Persisted VM IR for " (packages.text_of change.comment));
      }
      ∷ []

  abbrev pub applied_as : Option String → Change → Except (List Change)
  applied_as none change = ok (change ∷ [])
  applied_as (some contract) change = do
    artifacts ← build_contract_artifacts_from_source packages change
    ok (applied_source contract change artifacts)

  unfoldable pub collect_changes : List Change → Except (List Change)
  collect_changes [] = ok []
  collect_changes (change ∷ changes) = do
    applied ← applied_as (source_contract (split_dots change.key)) change
    rest ← collect_changes changes
    ok (applied ++ rest)

  unfoldable pub build_applied_changes : StatePatchBundle → Except (List Change)
  build_applied_changes bundle = do
    applied_changes ← collect_changes bundle.changes
    ok (sort_by (λ change. change.key) applied_changes)

  unfoldable pub hash_from_execution_payload : ScheduledPatchRecord → List Change → String
  hash_from_execution_payload patch changes = hash_value packages (
      obj (
        field "activation_height" patch.activation_height (
          field "bundle_hash" (str patch.bundle_hash) (
            field "changes"
              (arr (items_of (map canonical_change (sort_by (λ change. change.key) changes))))
              (field "emergency" (bool patch.emergency) (
                field "governance_contract" (str patch.governance_contract) (
                  field "patch_id" (str patch.patch_id)
                    (field "proposal_id" patch.proposal_id end))))))))

  -- `convert_dict` is for dicts alone.
  abbrev pub converted : Value → Except Value
  converted (obj fs) = packages.convert_dict (obj fs)
  converted v = ok v

  abbrev pub aggregate_hash : List PatchExecution → String
  aggregate_hash executions =
      hash_value packages
        (arr (items_of (map (λ execution. str execution.execution_hash) executions)))

  abbrev pub outcome : List PatchExecution → Option String × List Value
  outcome [] = (none, [])
  outcome (execution ∷ executions) =
      (some (aggregate_hash (execution ∷ executions)), map to_payload_dict (execution ∷ executions))

  module _ (driver : Driver) (chain_id : Option String) (governance_contract : String) where
    abbrev pub find_bundle : Option StatePatchBundle → Except StatePatchBundle
    find_bundle none = err (foreign "FileNotFoundError")
    find_bundle (some bundle) = ok bundle

    unfoldable pub build_execution : Inventory → ScheduledPatchRecord → Except PatchExecution
    build_execution inventory patch = do
      bundle ← find_bundle (lookup patch.patch_id inventory.local_bundles)
      validate_bundle_against_record chain_id bundle patch
      applied_changes ← build_applied_changes bundle
      ok (record {
        patch = patch;
        bundle = bundle;
        execution_hash = hash_from_execution_payload patch applied_changes;
        applied_changes = applied_changes;
      })

    unfoldable pub build_each : Inventory → List ScheduledPatchRecord → Except (List PatchExecution)
    build_each inventory [] = ok []
    build_each inventory (patch ∷ records) = do
      execution ← build_execution inventory patch
      executions ← build_each inventory records
      ok (execution ∷ executions)

    unfoldable pub build_executions :
        ℤ → Bool → Inventory → driver.Store → Except (List PatchExecution)
    build_executions height include_applied inventory store = do
      require_loaded inventory
      records ←
          (read_scheduled_patch_records driver packages governance_contract height include_applied
            store)
      build_each inventory records

    unfoldable pub build_applied_patches_for_block :
        ℤ → Inventory → driver.Store → Except (Option String × List Value)
    build_applied_patches_for_block height inventory store = do
      executions ← build_executions height true inventory store
      ok (outcome executions)

    -- The writes of a step, then those of the next unless the step has raised.
    abbrev pub and_then :
        Except (Unit {0}) × driver.Store
        → (driver.Store → Except (Unit {0}) × driver.Store)
        → Except (Unit {0}) × driver.Store
    and_then (err e, store) next = (err e, store)
    and_then (ok _, store) next = next store

    abbrev pub set_artifacts :
        String → Change → Except (Value × Value) → driver.Store → Except (Unit {0}) × driver.Store
    set_artifacts contract change (err e) store = (err e, store)
    set_artifacts contract change (ok (normalized_source, vm_ir_json)) store = (
      ok tt,
      driver.set (ir_key contract) vm_ir_json (driver.set change.key normalized_source store),
    )

    abbrev pub set_value : Change → Except Value → driver.Store → Except (Unit {0}) × driver.Store
    set_value change (err e) store = (err e, store)
    set_value change (ok value) store = (ok tt, driver.set change.key value store)

    abbrev pub apply_as : Option String → Change → driver.Store → Except (Unit {0}) × driver.Store
    apply_as none change store = set_value change (converted change.value) store
    apply_as (some contract) change store =
        set_artifacts contract change (build_contract_artifacts_from_source packages change) store

    unfoldable pub apply_changes : List Change → driver.Store → Except (Unit {0}) × driver.Store
    apply_changes [] store = (ok tt, store)
    apply_changes (change ∷ changes) store =
        and_then (apply_as (source_contract (split_dots change.key)) change store)
          (apply_changes changes)

    abbrev pub apply_single_bundle :
        PatchExecution → driver.Store → Except (Unit {0}) × driver.Store
    apply_single_bundle execution = apply_changes execution.bundle.changes

    abbrev pub set_patch_var : String → String → Value → driver.Store → driver.Store
    set_patch_var patch_id name =
        driver.set_var governance_contract "patches" (patch_id ∷ name ∷ [])

    unfoldable pub mark_patch_applied : Block → PatchExecution → driver.Store → driver.Store
    mark_patch_applied block execution store =
        let patch_id = execution.patch.patch_id in
        let store1 = set_patch_var patch_id "status" (str "applied") store in
        let store2 = set_patch_var patch_id "applied_block_height" (int block.height) store1 in
        let store3 =
          set_patch_var patch_id "applied_block_hash" (optional_text block.block_hash) store2 in
        let store4 = set_patch_var patch_id "applied_at_nanos" (int block.nanos) store3 in
        set_patch_var patch_id "execution_hash" (str execution.execution_hash) store4

    unfoldable pub apply_each :
        Block → List PatchExecution → driver.Store → Except (Unit {0}) × driver.Store
    apply_each block [] store = (ok tt, store)
    apply_each block (execution ∷ executions) store =
        and_then (apply_single_bundle execution store)
          (λ written. apply_each block executions (mark_patch_applied block execution written))

    abbrev pub report :
        List PatchExecution
        → Except (Unit {0}) × driver.Store
        → Except (Option String × List Value) × driver.Store
    report executions (err e, store) = (err e, store)
    report executions (ok _, store) = (ok (outcome executions), store)

    abbrev pub apply_built :
        Block
        → Except (List PatchExecution)
        → driver.Store
        → Except (Option String × List Value) × driver.Store
    apply_built block (err e) store = (err e, store)
    apply_built block (ok executions) store = report executions (apply_each block executions store)

    unfoldable pub apply_patches_for_block :
        Block → Inventory → driver.Store → Except (Option String × List Value) × driver.Store
    apply_patches_for_block block inventory store =
        apply_built block (build_executions block.height false inventory store) store
