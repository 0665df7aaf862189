-- ===== src/StatePatches/Execution/Writes.antt =====
-- The writes of the executions of src/xian/utils/state_patches.py, one by one.
use Prim.Native.String.{◌++◌ as text_append}
use mathlib.Core.Path.{subst}
use xian_abci.Prelude.{sym, ap, ◌∙◌, String, ◌≡◌, refl, Option, none, some, List, [], ◌∷◌, All}
use xian_abci.Result.{Except, ok, err, >>=-eq-ok, ok_injective}
use xian_abci.Value.{Value, null, bool, int, float, str, arr, obj, Fields, get_item}
use xian_abci.StatePatches.{
  Packages, Change, split_dots, source_contract, contract_name,
  build_contract_artifacts_from_source, optional_text,
}
use xian_abci.StatePatches.Bundle.{Inventory}
use xian_abci.StatePatches.Schedule.{Driver}
use xian_abci.StatePatches.Execution.{
  PatchExecution, Block, applied_as, collect_changes, build_applied_changes, converted, and_then,
  set_artifacts, set_value, apply_as, apply_changes, apply_single_bundle, mark_patch_applied,
  apply_each,
}
use xian_abci.StatePatches.Execution.Consistent.{IsConsistent}

-- `convert_dict` raises on no dict that stands in a bundle.
abbrev pub Converts : Packages → Type 0
Converts packages = (fs : Fields) → (w : Value) × (packages.convert_dict (obj fs) ≡ ok w)

module _ (packages : Packages) where
  -- What is written of a value: a dict as `convert_dict` gives it, all else as it stands.
  abbrev pub IsStoredAs : Value → Value → Type 0
  IsStoredAs (obj fs) w = packages.convert_dict (obj fs) ≡ ok w
  IsStoredAs v w = w ≡ v

  -- What the compiler makes of a source: the normalized source, and its IR.
  abbrev pub IsCompiledTo : Change → Value → Value → Type 0
  IsCompiledTo change source ir =
      (artifacts : Value) × (packages.build_contract_artifacts
          (contract_name (split_dots change.key)) change.value
        ≡ ok artifacts)
      × (get_item artifacts "source" ≡ ok source)
      × (get_item artifacts "vm_ir_json" ≡ ok ir)

  module _ (driver : Driver) where
    -- A change writes its value at its key; one whose key is the source of a contract writes the
    -- compiled source there, and the IR at the key of the contract's IR.
    abbrev pub WritesChange : Option String → Change → driver.Store → driver.Store → Type 0
    WritesChange none change store after =
        (w : Value) × IsStoredAs change.value w × (after ≡ driver.set change.key w store)
    WritesChange (some contract) change store after =
        (source ir : Value) × IsCompiledTo change source ir
        × (after
            ≡ driver.set (text_append contract (text_append "." packages.vm_ir_key)) ir
                (driver.set change.key source store))

    abbrev pub WritesChanges : List Change → driver.Store → driver.Store → Type 0
    WritesChanges [] store after = after ≡ store
    WritesChanges (change ∷ changes) store after =
        (next : driver.Store) × WritesChange (source_contract (split_dots change.key)) change store
          next
        × WritesChanges changes next after

    -- The variables of a patch that has been applied in a block.
    abbrev pub marked : String → Block → PatchExecution → driver.Store → driver.Store
    marked governance_contract block execution store =
        let id = execution.patch.patch_id in
        driver.set_var governance_contract "patches" (id ∷ "execution_hash" ∷ [])
          (str execution.execution_hash)
          (driver.set_var governance_contract "patches" (id ∷ "applied_at_nanos" ∷ [])
            (int block.nanos)
            (driver.set_var governance_contract "patches" (id ∷ "applied_block_hash" ∷ [])
              (optional_text block.block_hash)
              (driver.set_var governance_contract "patches" (id ∷ "applied_block_height" ∷ [])
                (int block.height)
                (driver.set_var governance_contract "patches" (id ∷ "status" ∷ []) (str "applied")
                  store))))

    -- Each execution in turn: the changes of its bundle, then its marks.
    abbrev pub WritesAll :
        String → Block → List PatchExecution → driver.Store → driver.Store → Type 0
    WritesAll governance_contract block [] store after = after ≡ store
    WritesAll governance_contract block (execution ∷ executions) store after =
        (next : driver.Store) × WritesChanges execution.bundle.changes store next
        × WritesAll governance_contract block executions
            (marked governance_contract block execution next) after

module _ (packages : Packages) (driver : Driver) (chain_id : Option String)
    (governance_contract : String) (converts : Converts packages) where
  converted-ok : (v : Value) → (w : Value) × (converted packages v ≡ ok w) × IsStoredAs packages v w
  converted-ok (obj fs) = let (w, e) = converts fs in (w, e, e)
  converted-ok null = (null, refl, refl)
  converted-ok (bool b) = (bool b, refl, refl)
  converted-ok (int i) = (int i, refl, refl)
  converted-ok (float x) = (float x, refl, refl)
  converted-ok (str s) = (str s, refl, refl)
  converted-ok (arr vs) = (arr vs, refl, refl)

  -- A step that has not raised, and what it leaves.
  abbrev pub Done : (driver.Store → Type 0) → Except (Unit {0}) × driver.Store → Type 0
  Done P (err e, store) = ⊥
  Done P (ok _, store) = P store

  set_value-Done :
      (change : Change) (r : Except Value) (w : Value) (store : driver.Store)
      → r ≡ ok w
      → IsStoredAs packages change.value w
      → Done
          (WritesChange packages driver none change store)
          (set_value packages driver chain_id governance_contract change r store)
  set_value-Done change (err e) w store h stored = cc
  set_value-Done change (ok v) w store h stored =
      (v, subst (IsStoredAs packages change.value) (sym (ok_injective h)) stored, refl)

  compiled :
      (change : Change) (source ir : Value)
      → build_contract_artifacts_from_source packages change ≡ ok (source, ir)
      → IsCompiledTo packages change source ir
  unfolding build_contract_artifacts_from_source
  compiled change source ir h =
      let (artifacts, made, h1) =
        >>=-eq-ok
          (packages.build_contract_artifacts (contract_name (split_dots change.key)) change.value) _
          h in
      let (s, has_source, h2) = >>=-eq-ok (get_item artifacts "source") _ h1 in
      let (i, has_ir, h3) = >>=-eq-ok (get_item artifacts "vm_ir_json") _ h2 in
      let same : (s, i) ≡ (source, ir) = ok_injective h3 in
      (
        artifacts,
        made,
        has_source ∙ ap (λ (pair : Value × Value). let r : Except Value = ok pair.0 in r) same,
        has_ir ∙ ap (λ (pair : Value × Value). let r : Except Value = ok pair.1 in r) same,
      )

  set_artifacts-Done :
      (contract : String) (change : Change) (r : Except (Value × Value)) (a : Value × Value)
      (store : driver.Store)
      → build_contract_artifacts_from_source packages change ≡ r
      → r ≡ ok a
      → Done
          (WritesChange packages driver (some contract) change store)
          (set_artifacts packages driver chain_id governance_contract contract change r store)
  set_artifacts-Done contract change (err e) a store same h = cc
  set_artifacts-Done contract change (ok (source, ir)) a store same h =
      (source, ir, compiled change source ir same, refl)

  -- A change that has been compiled once is written.
  apply_as-Done :
      (contract : Option String) (change : Change) (applied : List Change) (store : driver.Store)
      → applied_as packages contract change ≡ ok applied
      → Done
          (WritesChange packages driver contract change store)
          (apply_as packages driver chain_id governance_contract contract change store)
  apply_as-Done none change applied store h =
      let (w, e, stored) = converted-ok change.value in set_value-Done change _ w store e stored
  apply_as-Done (some contract) change applied store h =
      let (a, e, _) = >>=-eq-ok (build_contract_artifacts_from_source packages change) _ h in
      set_artifacts-Done contract change _ a store refl e

  and_then-Done :
      (P Q : driver.Store → Type 0) (r : Except (Unit {0}) × driver.Store)
      (next : driver.Store → Except (Unit {0}) × driver.Store)
      → Done P r
      → ((store : driver.Store) → P store → Done Q (next store))
      → Done Q (and_then packages driver chain_id governance_contract r next)
  and_then-Done P Q (err e, store) next r n = absurd r
  and_then-Done P Q (ok _, store) next r n = n store r

  Done-imp :
      (P Q : driver.Store → Type 0) (r : Except (Unit {0}) × driver.Store)
      → Done P r
      → ((store : driver.Store) → P store → Q store)
      → Done Q r
  Done-imp P Q (err e, store) d imp = absurd d
  Done-imp P Q (ok _, store) d imp = imp store d

  apply_changes-Done :
      (changes : List Change) (applied : List Change) (store : driver.Store)
      → collect_changes packages changes ≡ ok applied
      → Done
          (WritesChanges packages driver changes store)
          (apply_changes packages driver chain_id governance_contract changes store)
  unfolding apply_changes collect_changes
  apply_changes-Done [] applied store h = refl
  apply_changes-Done (change ∷ changes) applied store h =
      let contract = source_contract (split_dots change.key) in
      let (first, e, h1) = >>=-eq-ok (applied_as packages contract change) _ h in
      let (rest, e', _) = >>=-eq-ok (collect_changes packages changes) _ h1 in
      and_then-Done (WritesChange packages driver contract change store) _
        (apply_as packages driver chain_id governance_contract contract change store) _
        (apply_as-Done contract change first store e)
        (λ next written.
          Done-imp (WritesChanges packages driver changes next) _ _
            (apply_changes-Done changes rest next e') (λ after more. (next, written, more)))

  pub apply_each-Done :
      (inventory : Inventory) (block : Block) (executions : List PatchExecution)
      (store : driver.Store)
      → All (IsConsistent packages chain_id inventory) executions
      → Done
          (WritesAll packages driver governance_contract block executions store)
          (apply_each packages driver chain_id governance_contract block executions store)
  unfolding apply_each build_applied_changes mark_patch_applied
  apply_each-Done inventory block [] store h = refl
  apply_each-Done inventory block (execution ∷ executions) store (built, all_built) =
      let (applied, e, _) =
        >>=-eq-ok (collect_changes packages execution.bundle.changes) _ built.changes_built in
      and_then-Done (WritesChanges packages driver execution.bundle.changes store) _
        (apply_single_bundle packages driver chain_id governance_contract execution store) _
        (apply_changes-Done execution.bundle.changes applied store e)
        (λ next written.
          Done-imp
            (WritesAll packages driver governance_contract block executions
              (marked packages driver governance_contract block execution next))
            _ _
            (apply_each-Done inventory block executions
              (marked packages driver governance_contract block execution next) all_built)
            (λ after more. (next, written, more)))
