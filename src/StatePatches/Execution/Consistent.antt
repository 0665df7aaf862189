-- ===== src/StatePatches/Execution/Consistent.antt =====
-- What the executions built by src/xian/utils/state_patches.py agree on: the governed record, the
-- local bundle and the chain.
use mathlib.Core.Path.{subst}
use xian_abci.Prelude.{
  String, ◌≡◌, refl, Bool, true, not, ◌==◌, string_eq, Option, none, some, List, [], ◌∷◌, map, All,
  sym,
}
use xian_abci.Prelude.Int.{ℤ}
use xian_abci.Prelude.Dict.{lookup}
use xian_abci.Prelude.Sort.{IsSorted}
use xian_abci.Result.{
  Except, ok, value_error, raise_if, Holds, Holds->>=, Holds-raise_unless, Holds-any, Holds-imp,
  Holds-eq,
}
use xian_abci.StatePatches.{Packages, StatePatchBundle}
use xian_abci.StatePatches.Bundle.{Inventory, require_loaded}
use xian_abci.StatePatches.Schedule.{Driver, ScheduledPatchRecord, read_scheduled_patch_records}
use xian_abci.StatePatches.Execution.{
  PatchExecution, same_height, for_chain, validate_bundle_against_record, build_applied_changes,
  hash_from_execution_payload, find_bundle, build_execution, build_each, build_executions,
}
use xian_abci.StatePatches.Schedule.Governed.{IsGoverned, read_records-Holds}

-- An execution is of a local bundle that agrees with its record, and has the bundle's changes.
pub record IsConsistent (packages : Packages) (chain_id : Option String) (inventory : Inventory)
    (execution : PatchExecution) : Type 0 where
  pub local_bundle : lookup execution.patch.patch_id inventory.local_bundles ≡ some execution.bundle
  pub same_hash : execution.bundle.bundle_hash ≡ execution.patch.bundle_hash
  pub height_agrees :
      same_height execution.bundle.activation_height execution.patch.activation_height ≡ true
  pub same_contract : execution.bundle.governance_contract ≡ execution.patch.governance_contract
  pub chain_agrees : for_chain execution.bundle.chain_id chain_id ≡ true
  pub changes_built : build_applied_changes packages execution.bundle ≡ ok execution.applied_changes
  pub hash_of_changes :
      execution.execution_hash
      ≡ hash_from_execution_payload packages execution.patch execution.applied_changes

-- A bundle that passed the comparison with its record.
abbrev Agrees : Option String → StatePatchBundle → ScheduledPatchRecord → Type 0
Agrees chain_id bundle patch =
    (bundle.bundle_hash ≡ patch.bundle_hash)
    × (same_height bundle.activation_height patch.activation_height ≡ true)
    × (bundle.governance_contract ≡ patch.governance_contract)
    × (for_chain bundle.chain_id chain_id ≡ true)

validate-Holds :
    (chain_id : Option String) (bundle : StatePatchBundle) (patch : ScheduledPatchRecord)
    → Holds
        (λ _. Agrees chain_id bundle patch)
        (validate_bundle_against_record chain_id bundle patch)
unfolding validate_bundle_against_record
validate-Holds chain_id bundle patch =
    Holds->>= _ (raise_if (not (bundle.bundle_hash == patch.bundle_hash)) value_error) _
      (Holds-raise_unless _ value_error)
      (λ _ hashes.
        Holds->>= _
          (raise_if (not (same_height bundle.activation_height patch.activation_height))
            value_error)
          _ (Holds-raise_unless _ value_error)
          (λ _ heights.
            Holds->>= _
              (raise_if (not (bundle.governance_contract == patch.governance_contract)) value_error)
              _ (Holds-raise_unless _ value_error)
              (λ _ contracts.
                Holds-imp (λ _. Agrees chain_id bundle patch)
                  (raise_if (not (for_chain bundle.chain_id chain_id)) value_error)
                  (Holds-raise_unless _ value_error)
                  (λ _ chains. (
                    (string_eq.same_iff _ _).0 hashes,
                    heights,
                    (string_eq.same_iff _ _).0 contracts,
                    chains,
                  )))))

module _ (packages : Packages) (driver : Driver) (chain_id : Option String)
    (governance_contract : String) (inventory : Inventory) where
  abbrev Consistent : PatchExecution → Type 0
  Consistent = IsConsistent packages chain_id inventory

  find_bundle-Holds :
      (found : Option StatePatchBundle)
      → Holds
          (λ bundle. found ≡ some bundle)
          (find_bundle packages driver chain_id governance_contract found)
  find_bundle-Holds none = tt
  find_bundle-Holds (some bundle) = refl

  build_execution-Holds :
      (patch : ScheduledPatchRecord)
      → Holds
          (λ execution. Consistent execution × (execution.patch ≡ patch))
          (build_execution packages driver chain_id governance_contract inventory patch)
  unfolding build_execution
  build_execution-Holds patch =
      let found = lookup patch.patch_id inventory.local_bundles in
      Holds->>= _ (find_bundle packages driver chain_id governance_contract found) _
        (find_bundle-Holds found)
        (λ bundle local.
          Holds->>= _ (validate_bundle_against_record chain_id bundle patch) _
            (validate-Holds chain_id bundle patch)
            (λ _ (hashes, heights, contracts, chains).
              Holds->>= _ (build_applied_changes packages bundle) _ (Holds-any _) (λ changes built.
                (
                  record {
                    local_bundle = local;
                    same_hash = hashes;
                    height_agrees = heights;
                    same_contract = contracts;
                    chain_agrees = chains;
                    changes_built = built;
                    hash_of_changes = refl;
                  },
                  refl,
                ))))

  build_each-Holds :
      (records : List ScheduledPatchRecord)
      → Holds
          (λ executions.
            All Consistent executions × (map (λ execution. execution.patch) executions ≡ records))
          (build_each packages driver chain_id governance_contract inventory records)
  unfolding build_each
  build_each-Holds [] = (tt, refl)
  build_each-Holds (patch ∷ records) =
      Holds->>= _ (build_execution packages driver chain_id governance_contract inventory patch) _
        (build_execution-Holds patch)
        (λ execution (consistent, same).
          Holds->>= _ (build_each packages driver chain_id governance_contract inventory records) _
            (build_each-Holds records)
            (λ executions (all_consistent, all_same).
              ((consistent, all_consistent), cc (same, all_same))))

  module _ (height : ℤ) (include_applied : Bool) (store : driver.Store) where
    abbrev pub scheduled : Except (List ScheduledPatchRecord)
    scheduled =
        read_scheduled_patch_records driver packages governance_contract height include_applied
          store

    abbrev pub records_of : List PatchExecution → List ScheduledPatchRecord
    records_of = map (λ execution. execution.patch)

    abbrev pub Built : List PatchExecution → Type 0
    Built executions =
        All Consistent executions
        × All (IsGoverned governance_contract height include_applied) (records_of executions)
        × IsSorted (λ patch. patch.patch_id) (records_of executions)
        × (scheduled ≡ ok (records_of executions))

    -- Where `_build_executions` returns, there is one execution for each record of the height, in
    -- the order of their ids; each record belongs to the contract and the height, and is approved,
    -- or applied where applied ones are asked for; each execution takes the local bundle of that
    -- id, which agrees with the record in hash, height and contract and is for this chain, and
    -- carries the bundle's changes as they are applied, with the hash of those.
    pub build_executions-Consistent : Holds Built (
        build_executions packages driver chain_id governance_contract height include_applied
          inventory store)
    unfolding build_executions
    build_executions-Consistent = Holds->>= _ (require_loaded inventory) _ (Holds-any _) (λ _ _.
        Holds->>= _ scheduled _ (Holds-any _) (λ records read.
          Holds-imp Built
            (build_each packages driver chain_id governance_contract inventory records)
            (build_each-Holds records)
            (λ executions (consistent, same).
              let (governed, sorted) =
                Holds-eq
                  (λ rs.
                    All (IsGoverned governance_contract height include_applied) rs
                    × IsSorted (λ patch. patch.patch_id) rs)
                  (read_records-Holds driver governance_contract height include_applied store
                    packages)
                  read in
              subst
                (λ rs.
                  All Consistent executions
                  × All (IsGoverned governance_contract height include_applied) rs
                  × IsSorted (λ patch. patch.patch_id) rs
                  × (scheduled ≡ ok rs))
                (sym same) (consistent, governed, sorted, read))))
