-- ===== src/StatePatches/Canonical.antt =====
-- The hashes of src/xian/utils/state_patches.py do not depend on the order of the changes.
use mathlib.Core.List.{Permᴰ}
use xian_abci.Prelude.{String, ◌≡◌, ap, List, [], ◌∷◌, map, All, ◌≢◌}
use xian_abci.Prelude.Sort.{HasDistinctKeys, sort_by-Permᴰ}
use xian_abci.Value.{Value}
use xian_abci.StatePatches.{
  Packages, Change, BundlePayload, serialized_change, hash_from_state_changes,
  hash_from_bundle_payload,
}
use xian_abci.StatePatches.Schedule.{ScheduledPatchRecord}
use xian_abci.StatePatches.Execution.{hash_from_execution_payload}

map-Permᴰ {ℓ κ} :
    {A : Type ℓ} {B : Type κ} (f : A → B) {xs ys : List A}
    → Permᴰ xs ys
    → Permᴰ (map f xs) (map f ys)
map-Permᴰ f Permᴰ.nil = Permᴰ.nil
map-Permᴰ f (Permᴰ.cons e p) = Permᴰ.cons (ap f e) (map-Permᴰ f p)
map-Permᴰ f (Permᴰ.swap e d) = Permᴰ.swap (ap f e) (ap f d)
map-Permᴰ f (Permᴰ.trans p q) = Permᴰ.trans (map-Permᴰ f p) (map-Permᴰ f q)

module _ (packages : Packages) where
  All-serialized :
      (key : String) (changes : List (String × Value))
      → All (λ other. key ≢ other.0) changes
      → All (λ other. key ≢ other.0) (map (serialized_change packages) changes)
  All-serialized key [] h = tt
  All-serialized key ((j, v) ∷ changes) h = (h.0, All-serialized key changes h.1)

  HasDistinctKeys-serialized :
      (changes : List (String × Value))
      → HasDistinctKeys (λ item. item.0) changes
      → HasDistinctKeys (λ item. item.0) (map (serialized_change packages) changes)
  HasDistinctKeys-serialized [] h = tt
  HasDistinctKeys-serialized ((k, v) ∷ changes) h =
      (All-serialized k changes h.0, HasDistinctKeys-serialized changes h.1)

  -- The hash of state changes with different keys is the same in whatever order they stand.
  pub state_changes_hash_reordered :
      {changes others : List (String × Value)}
      → Permᴰ changes others
      → HasDistinctKeys (λ item. item.0) changes
      → hash_from_state_changes packages changes ≡ hash_from_state_changes packages others
  unfolding hash_from_state_changes
  state_changes_hash_reordered {changes} p d = cc (
      sort_by-Permᴰ (λ item. item.0) (map-Permᴰ (serialized_change packages) p)
        (HasDistinctKeys-serialized changes d))

  -- Two lists of the same changes with different keys, in whatever order, give a bundle the same
  -- hash, and an execution too.
  pub patch_hashes_reordered :
      (payload : BundlePayload) (patch : ScheduledPatchRecord) (changes others : List Change)
      → Permᴰ changes others
      → HasDistinctKeys (λ change. change.key) changes
      → (hash_from_bundle_payload packages (record payload { changes = changes })
          ≡ hash_from_bundle_payload packages (record payload { changes = others }))
        × (hash_from_execution_payload packages patch changes
            ≡ hash_from_execution_payload packages patch others)
  unfolding hash_from_bundle_payload hash_from_execution_payload
  patch_hashes_reordered payload patch changes others p d =
      let sorted = sort_by-Permᴰ (λ change. change.key) p d in (cc sorted, cc sorted)
