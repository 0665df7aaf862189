-- ===== src/StatePatches/Bundle/Loaded.antt =====
-- What the inventory of src/xian/utils/state_patches.py holds after `load_patches`.
use xian_abci.Prelude.{
  String, ◌≡◌, ◌≢◌, refl, Bool, true, false, not, arith, List, [], ◌∷◌, All, string_eq,
}
use xian_abci.Prelude.Dict.{Dict, insert, contains, IsNodup, IsNodup-insert, All-insert}
use xian_abci.Prelude.Sort.{HasDistinctKeys}
use xian_abci.Result.{
  Except, ok, err, value_error, raise_if, Holds, Holds->>=, Holds-raise_if, Holds-raise_unless,
  Holds-any,
}
use xian_abci.Value.{
  Value, null, bool, int, float, str, arr, obj, Items, nil, cons, equals_int, get_field,
}
use xian_abci.Value.Number.{codes}
use xian_abci.Transaction.{get_method}
use xian_abci.StatePatches.{
  Packages, Change, BundlePayload, StatePatchBundle, state_patch_bundle_version,
}
use xian_abci.StatePatches.Bundle.{
  matches_patch_id, positive_height, expect_text, non_empty, expect_chain_id, expect_changes, seen,
  is_protected, normalize_change, normalize_changes, Inventory, Location, missing, file, folder,
  bundle_of, read_payload, load_bundle_file, load_files, settle, load_patches,
}

expect_text-Holds :
    (test : String → Bool) (v : Value) → Holds (λ s. test s ≡ true) (expect_text test v)
expect_text-Holds test (str s) =
    Holds->>= _ (raise_if (not (test s)) value_error) (λ _. ok s)
      (Holds-raise_unless (test s) value_error) (λ _ passed. passed)
expect_text-Holds test null = tt
expect_text-Holds test (bool b) = tt
expect_text-Holds test (int i) = tt
expect_text-Holds test (float x) = tt
expect_text-Holds test (arr vs) = tt
expect_text-Holds test (obj fs) = tt

-- A change that may be written.
abbrev pub IsAllowed : String → Change → Type 0
IsAllowed vm_ir_key change =
    (non_empty change.key ≡ true) × (is_protected vm_ir_key change.key ≡ false)

normalize_change-Holds :
    (vm_ir_key : String) (keys : List String) (v : Value)
    → Holds
        (λ change. IsAllowed vm_ir_key change × (seen change.key keys ≡ false))
        (normalize_change vm_ir_key keys v)
unfolding normalize_change
normalize_change-Holds vm_ir_key keys (obj raw) =
    Holds->>= _ (expect_text non_empty (get_field "key" raw)) _
      (expect_text-Holds non_empty (get_field "key" raw))
      (λ key filled.
        Holds->>= _ (raise_if (seen key keys) value_error) _
          (Holds-raise_if (seen key keys) value_error)
          (λ _ new.
            Holds->>= _ (raise_if (is_protected vm_ir_key key) value_error) _
              (Holds-raise_if (is_protected vm_ir_key key) value_error)
              (λ _ allowed. ((filled, allowed), new))))
normalize_change-Holds vm_ir_key keys null = tt
normalize_change-Holds vm_ir_key keys (bool b) = tt
normalize_change-Holds vm_ir_key keys (int i) = tt
normalize_change-Holds vm_ir_key keys (float x) = tt
normalize_change-Holds vm_ir_key keys (str s) = tt
normalize_change-Holds vm_ir_key keys (arr vs) = tt

-- None of the keys seen is among the changes.
abbrev AreNew : List String → List Change → Type 0
AreNew keys = All (λ change. seen change.key keys ≡ false)

distinct_of_new :
    (change : Change) (keys : List String) (changes : List Change)
    → AreNew (change.key ∷ keys) changes
    → All (λ other. change.key ≢ other.key) changes × AreNew keys changes
distinct_of_new change keys [] new = (tt, tt)
distinct_of_new change keys (other ∷ changes) new =
    ground
      (arith, string_eq.same_iff change.key other.key, distinct_of_new change keys changes new.1)

-- The changes have different keys, and all may be written.
abbrev pub AreValid : String → List Change → Type 0
AreValid vm_ir_key changes =
    HasDistinctKeys (λ c. c.key) changes × All (IsAllowed vm_ir_key) changes

normalize_changes-Holds :
    (vm_ir_key : String) (keys : List String) (raw_changes : Items)
    → Holds
        (λ changes. AreValid vm_ir_key changes × AreNew keys changes)
        (normalize_changes vm_ir_key keys raw_changes)
unfolding normalize_changes
normalize_changes-Holds vm_ir_key keys nil = ((tt, tt), tt)
normalize_changes-Holds vm_ir_key keys (cons raw raws) =
    Holds->>= _ (normalize_change vm_ir_key keys raw) _ (normalize_change-Holds vm_ir_key keys raw)
      (λ change (allowed, new).
        Holds->>= _ (normalize_changes vm_ir_key (change.key ∷ keys) raws) _
          (normalize_changes-Holds vm_ir_key (change.key ∷ keys) raws)
          (λ changes ((distinct, all_allowed), all_new).
            let (differ, rest_new) = distinct_of_new change keys changes all_new in
            (((differ, distinct), (allowed, all_allowed)), (new, rest_new))))

-- What the checks of a file establish.
abbrev pub IsValid : Packages → BundlePayload → Type 0
IsValid packages payload =
    (equals_int payload.version state_patch_bundle_version ≡ true)
    × (matches_patch_id (codes payload.patch_id) ≡ true)
    × (positive_height payload.activation_height ≡ true)
    × (non_empty payload.governance_contract ≡ true)
    × AreValid packages.vm_ir_key payload.changes

read_payload-Holds :
    (packages : Packages) (governance_contract : String) (json : Value)
    → Holds (IsValid packages) (read_payload packages governance_contract json)
unfolding read_payload
read_payload-Holds packages governance_contract json =
    Holds->>= _ (get_method json "version" null) _ (Holds-any _) (λ version _.
      Holds->>= _ (raise_if (not (equals_int version state_patch_bundle_version)) value_error) _
        (Holds-raise_unless _ value_error)
        (λ _ versioned. Holds->>= _ (get_method json "patch_id" null) _ (Holds-any _) (λ given_id _.
          Holds->>= _ (expect_text (λ s. matches_patch_id (codes s)) given_id) _
            (expect_text-Holds _ given_id)
            (λ patch_id named.
              Holds->>= _ (get_method json "activation_height" null) _ (Holds-any _) (λ height _.
                Holds->>= _ (raise_if (not (positive_height height)) value_error) _
                  (Holds-raise_unless _ value_error)
                  (λ _ positive.
                    Holds->>= _ (get_method json "governance_contract" (str governance_contract)) _
                      (Holds-any _)
                      (λ given_contract _.
                        Holds->>= _ (expect_text non_empty given_contract) _
                          (expect_text-Holds _ given_contract)
                          (λ contract governed.
                            Holds->>= _ (get_method json "chain_id" null) _ (Holds-any _)
                              (λ given_chain _.
                                Holds->>= _ (expect_chain_id given_chain) _ (Holds-any _)
                                  (λ chain_id _.
                                    Holds->>= _ (get_method json "changes" null) _ (Holds-any _)
                                      (λ given_changes _.
                                        Holds->>= _ (expect_changes given_changes) _ (Holds-any _)
                                          (λ raw_changes _.
                                            Holds->>= _
                                              (normalize_changes packages.vm_ir_key [] raw_changes)
                                              _ (normalize_changes-Holds _ [] raw_changes)
                                              (λ changes (valid, _).
                                                Holds->>= _ (get_method json "summary" (str "")) _
                                                  (Holds-any _)
                                                  (λ summary _.
                                                    Holds->>= _ (get_method json "uri" (str "")) _
                                                      (Holds-any _)
                                                      (λ uri _. (
                                                        versioned, named, positive, governed, valid,
                                                      ))))))))))))))))

-- A bundle with the hash of its payload, from a file that passed the checks.
abbrev pub IsLoaded : Packages → StatePatchBundle → Type 0
IsLoaded packages bundle =
    (payload : BundlePayload) × (path : String) × IsValid packages payload
    × (bundle ≡ bundle_of packages payload path)

-- Every bundle stands once, under its own id.
abbrev pub IsInventory : Packages → Dict String StatePatchBundle → Type 0
IsInventory packages bundles =
    IsNodup bundles
    × All (λ (patch_id, bundle). (patch_id ≡ bundle.patch_id) × IsLoaded packages bundle) bundles

module _ (packages : Packages) (read_json : String → Except Value) (resolve : String → String)
    (governance_contract : String) where
  load_bundle_file-Holds :
      (bundle_file : String)
      → Holds
          (IsLoaded packages)
          (load_bundle_file packages read_json resolve governance_contract bundle_file)
  unfolding load_bundle_file
  load_bundle_file-Holds bundle_file =
      Holds->>= _ (read_json bundle_file) _ (Holds-any _) (λ json _.
        Holds->>= _ (read_payload packages governance_contract json) _
          (read_payload-Holds packages governance_contract json)
          (λ payload valid. (payload, resolve bundle_file, valid, refl)))

  load_files-Holds :
      (bundle_files : List String) (bundles : Dict String StatePatchBundle)
      → IsInventory packages bundles
      → Holds
          (IsInventory packages)
          (load_files packages read_json resolve governance_contract bundle_files bundles)
  unfolding load_files
  load_files-Holds [] bundles h = h
  load_files-Holds (bundle_file ∷ bundle_files) bundles (once, loaded) =
      Holds->>= _ (load_bundle_file packages read_json resolve governance_contract bundle_file) _
        (load_bundle_file-Holds bundle_file)
        (λ bundle read.
          Holds->>= _ (raise_if (contains bundle.patch_id bundles) value_error) _
            (Holds-raise_if _ value_error)
            (λ _ new. load_files-Holds bundle_files (insert bundle.patch_id bundle bundles) (
              IsNodup-insert bundle.patch_id bundle bundles once,
              All-insert (λ (patch_id, b). (patch_id ≡ b.patch_id) × IsLoaded packages b)
                  bundle.patch_id bundle bundles (refl, read) loaded,
            )))

  -- What a call of `load_patches` leaves.
  abbrev pub Settled : Except (Unit {0}) × Inventory → Type 0
  Settled (err e, inventory) = (inventory.local_bundles ≡ []) × (inventory.loaded ≡ false)
  Settled (ok _, inventory) =
      IsInventory packages inventory.local_bundles × (inventory.loaded ≡ true)

  settle-Settled :
      (r : Except (Dict String StatePatchBundle))
      → Holds (IsInventory packages) r
      → Settled (settle packages read_json resolve governance_contract r)
  settle-Settled (err e) h = (refl, refl)
  settle-Settled (ok bundles) h = (h, refl)

  -- After a load that fails, the inventory is empty and counts as not loaded. After one that
  -- succeeds it counts as loaded, each bundle stands once, under its own id, and comes from a
  -- payload of version 1 with a well-formed id, a positive height, a contract, and changes with
  -- different keys, none of them empty or protected; its hash is the hash of that payload.
  pub load_patches-Settled :
      (location : Location)
      → Settled (load_patches packages read_json resolve governance_contract location)
  unfolding load_patches
  load_patches-Settled missing = ((tt, tt), refl)
  load_patches-Settled (file path) = settle-Settled _ (load_files-Holds (path ∷ []) [] (tt, tt))
  load_patches-Settled (folder bundle_files) =
      settle-Settled _ (load_files-Holds bundle_files [] (tt, tt))
