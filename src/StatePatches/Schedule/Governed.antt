-- ===== src/StatePatches/Schedule/Governed.antt =====
-- The records that the schedule of src/xian/utils/state_patches.py reads for a height.
use xian_abci.Prelude.{
  String, ◌≡◌, refl, Bool, true, not, ◌&&◌, ◌||◌, ◌==◌, string_eq, arith, Option, none, some, List,
  [], ◌∷◌, All, Bool-cases, inl, inr,
}
use xian_abci.Prelude.Int.{ℤ}
use xian_abci.Prelude.Dict.{Dict}
use xian_abci.Prelude.Sort.{IsSorted, All-sort_by, sort_by-IsSorted}
use xian_abci.Result.{value_error, raise_if, Holds, Holds->>=, Holds-raise_unless, Holds-any}
use xian_abci.Value.{Value, null, bool, int, float, str, arr, obj, truth, equals_int}
use xian_abci.StatePatches.{Packages}
use xian_abci.StatePatches.Bundle.{expect_text, non_empty}
use xian_abci.StatePatches.Schedule.{
  Driver, ScheduledPatchRecord, patch_var, is_int, known_status, read_record, read_known, read_item,
  add_some, read_items, drop_prefix, scheduled_prefix, read_scheduled_patch_records,
}

-- A patch that governance has scheduled for a height, and whose status counts.
pub record IsGoverned (governance_contract : String) (height : ℤ) (include_applied : Bool)
    (patch : ScheduledPatchRecord) : Type 0 where
  pub governed : patch.governance_contract ≡ governance_contract
  pub due : equals_int patch.activation_height height ≡ true
  pub status_counts :
      ((patch.status == "approved") || ((patch.status == "applied") && include_applied)) ≡ true

-- What `known_status` lets through.
abbrev IsKnown : Option String → Type 0
IsKnown none = Unit
IsKnown (some status) = ((status == "approved") || (status == "applied")) ≡ true

known_status-Holds : (v : Value) → Holds IsKnown (known_status v)
known_status-Holds (str s) = elim (Bool-cases ((s == "approved") || (s == "applied"))) [
  | inl known ↦ rw known known
  | inr unknown ↦ rw unknown tt
]
known_status-Holds null = tt
known_status-Holds (bool b) = tt
known_status-Holds (int i) = tt
known_status-Holds (float x) = tt
known_status-Holds (arr vs) = tt
known_status-Holds (obj fs) = tt

module _ (driver : Driver) (governance_contract : String) (height : ℤ) (include_applied : Bool)
    (store : driver.Store) where
  abbrev pub Governed : ScheduledPatchRecord → Type 0
  Governed = IsGoverned governance_contract height include_applied

  abbrev Found : Option ScheduledPatchRecord → Type 0
  Found none = Unit
  Found (some patch) = Governed patch

  read_record-Holds :
      (patch_id status : String)
      → ((status == "approved") || ((status == "applied") && include_applied)) ≡ true
      → Holds Governed (read_record driver governance_contract height store patch_id status)
  unfolding read_record
  read_record-Holds patch_id status counts =
      Holds->>= _
        (raise_if (not (is_int (patch_var driver governance_contract patch_id "proposal_id" store)))
          value_error)
        _ (Holds-any _)
        (λ _ _.
          Holds->>= _
            (expect_text non_empty
              (patch_var driver governance_contract patch_id "bundle_hash" store))
            _ (Holds-any _)
            (λ bundle_hash _.
              Holds->>= _
                (raise_if
                  (not (
                    equals_int
                      (patch_var driver governance_contract patch_id "activation_height" store)
                      height))
                  value_error)
                _ (Holds-raise_unless _ value_error)
                (λ _ due. record { governed = refl; due = due; status_counts = counts })))

  read_known-Holds :
      (patch_id : String) (status : Option String)
      → IsKnown status
      → Holds Found
          (read_known driver governance_contract height include_applied store patch_id status)
  read_known-Holds patch_id none known = tt
  read_known-Holds patch_id (some status) known =
      elim (Bool-cases ((status == "applied") && not include_applied)) [
        | inl left_out ↦ rw left_out tt
        | inr counts ↦ rw counts (
            Holds->>= Found (read_record driver governance_contract height store patch_id status) _
              (read_record-Holds patch_id status (ground arith)) (λ patch governed. governed))
      ]

  read_item-Holds :
      (patch_id : String) (scheduled : Value)
      → Holds Found
          (read_item driver governance_contract height include_applied store patch_id scheduled)
  unfolding read_item
  read_item-Holds patch_id scheduled = elim (Bool-cases (not (truth scheduled))) [
    | inl off ↦ rw off tt
    | inr on ↦ rw on (
        Holds->>= Found
          (known_status (patch_var driver governance_contract patch_id "status" store)) _
          (known_status-Holds (patch_var driver governance_contract patch_id "status" store))
          (read_known-Holds patch_id))
  ]

  All-add_some :
      (found : Option ScheduledPatchRecord) (records : List ScheduledPatchRecord)
      → Found found
      → All Governed records
      → All Governed (add_some driver found records)
  All-add_some none records h hs = hs
  All-add_some (some patch) records h hs = (h, hs)

  read_items-Holds :
      (prefix : String) (items : Dict String Value)
      → Holds
          (All Governed)
          (read_items driver governance_contract height include_applied store prefix items)
  unfolding read_items
  read_items-Holds prefix [] = tt
  read_items-Holds prefix ((key, scheduled) ∷ items) =
      Holds->>= _
        (read_item driver governance_contract height include_applied store (drop_prefix prefix key)
          scheduled)
        _ (read_item-Holds (drop_prefix prefix key) scheduled)
        (λ found governed.
          Holds->>= _
            (read_items driver governance_contract height include_applied store prefix items) _
            (read_items-Holds prefix items)
            (λ records all_governed. All-add_some found records governed all_governed))

  pub read_records-Holds :
      (packages : Packages)
      → Holds
          (λ records. All Governed records × IsSorted (λ patch. patch.patch_id) records)
          (read_scheduled_patch_records driver packages governance_contract height include_applied
            store)
  unfolding read_scheduled_patch_records
  read_records-Holds packages =
      let prefix = scheduled_prefix driver packages governance_contract height in
      Holds->>= _
        (read_items driver governance_contract height include_applied store prefix
          (driver.items prefix store))
        _ (read_items-Holds prefix (driver.items prefix store))
        (λ records governed. (
          All-sort_by (λ patch. patch.patch_id) Governed records governed,
          sort_by-IsSorted (λ patch. patch.patch_id) records,
        ))
