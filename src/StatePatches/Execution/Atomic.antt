-- ===== src/StatePatches/Execution/Atomic.antt =====
-- All or nothing: `apply_patches_for_block` of src/xian/utils/state_patches.py raises before its
-- first write or not at all.
use mathlib.Core.Path.{subst}
use xian_abci.Prelude.{
  String, ◌≡◌, refl, sym, ◌∙◌, ap, false, Option, none, some, List, [], ◌∷◌, map, inl, inr,
}
use xian_abci.Result.{Except, ok, err, Except-cases, Holds-eq}
use xian_abci.Value.{Value, str, arr}
use xian_abci.StatePatches.{Packages, items_of, hash_value}
use xian_abci.StatePatches.Bundle.{Inventory}
use xian_abci.StatePatches.Schedule.{Driver}
use xian_abci.StatePatches.Execution.{
  PatchExecution, Block, outcome, to_payload_dict, build_executions, apply_each, report,
  apply_built, apply_patches_for_block,
}
use xian_abci.StatePatches.Execution.Consistent.{build_executions-Consistent}
use xian_abci.StatePatches.Execution.Writes.{Converts, WritesAll, Done, apply_each-Done}

module _ (packages : Packages) (driver : Driver) (chain_id : Option String)
    (governance_contract : String) (converts : Converts packages) where
  pub apply_built-Done :
      (block : Block) (inventory : Inventory) (store : driver.Store)
      (executions : List PatchExecution)
      → build_executions packages driver chain_id governance_contract block.height false inventory
          store
        ≡ ok executions
      → Done packages driver chain_id governance_contract converts
          (WritesAll packages driver governance_contract block executions store)
          (apply_each packages driver chain_id governance_contract block executions store)
  apply_built-Done block inventory store executions built =
      apply_each-Done packages driver chain_id governance_contract converts inventory block
        executions store
        (Holds-eq _
          (build_executions-Consistent packages driver chain_id governance_contract inventory
            block.height false store)
          built).0

  report-ok :
      (P : driver.Store → Type 0) (executions : List PatchExecution)
      (r : Except (Unit {0}) × driver.Store)
      → Done packages driver chain_id governance_contract converts P r
      → (report packages driver chain_id governance_contract executions r
          ≡ (ok (outcome packages executions), r.1))
        × P r.1
  report-ok P executions (err e, store) d = absurd d
  report-ok P executions (ok _, store) d = (refl, d)

  -- A call whose executions can be built returns, and has made their writes.
  pub apply_patches-built :
      (block : Block) (inventory : Inventory) (store : driver.Store)
      (executions : List PatchExecution)
      → build_executions packages driver chain_id governance_contract block.height false inventory
          store
        ≡ ok executions
      → (apply_patches_for_block packages driver chain_id governance_contract block inventory store
          ≡ (
            ok (outcome packages executions),
            (apply_each packages driver chain_id governance_contract block executions store).1,
          ))
        × WritesAll packages driver governance_contract block executions store
            (apply_each packages driver chain_id governance_contract block executions store).1
  unfolding apply_patches_for_block
  apply_patches-built block inventory store executions built =
      let (reported, written) =
        report-ok (WritesAll packages driver governance_contract block executions store) executions
          (apply_each packages driver chain_id governance_contract block executions store)
          (apply_built-Done block inventory store executions built) in
      (
        ap (λ b. apply_built packages driver chain_id governance_contract block b store) built
            ∙ reported,
        written,
      )

  -- Without executions there is neither a hash nor a payload; otherwise the hash is that of the
  -- list of their hashes.
  abbrev pub IsReport : List PatchExecution → Option String × List Value → Type 0
  IsReport [] r = r ≡ (none, [])
  IsReport (execution ∷ executions) r = r ≡ (
    some (
        hash_value packages
          (arr (items_of (map (λ e. str e.execution_hash) (execution ∷ executions))))),
    map to_payload_dict (execution ∷ executions),
  )

  outcome-IsReport :
      (executions : List PatchExecution) → IsReport executions (outcome packages executions)
  outcome-IsReport [] = refl
  outcome-IsReport (execution ∷ executions) = refl

  -- What a call does, given the executions of its height.
  abbrev pub AllOrNothing :
      Block
      → driver.Store
      → Except (List PatchExecution)
      → Except (Option String × List Value) × driver.Store
      → Type 0
  AllOrNothing block store (err e) r = r ≡ (err e, store)
  AllOrNothing block store (ok executions) r =
      (reported : Option String × List Value) × (r.0 ≡ ok reported)
      × IsReport executions reported
      × WritesAll packages driver governance_contract block executions store r.1

  -- Where `convert_dict` does not raise: if the executions of the height cannot be built, the call
  -- raises what their building raised and has written nothing; otherwise it raises nothing, and
  -- returns their payloads and hash. Its writes are then, execution by execution: each change of
  -- the bundle in order, as its converted value at its key, or for a source the compiled source
  -- there and the IR at the key of the contract's IR; then the status "applied", the height, the
  -- hash and the time of the block and the execution's hash in the variables of the patch.
  pub apply_patches-AllOrNothing :
      (block : Block) (inventory : Inventory) (store : driver.Store)
      → AllOrNothing block store
          (build_executions packages driver chain_id governance_contract block.height false
            inventory store)
          (apply_patches_for_block packages driver chain_id governance_contract block inventory
            store)
  unfolding apply_patches_for_block
  apply_patches-AllOrNothing block inventory store =
      elim (Except-cases (
        build_executions packages driver chain_id governance_contract block.height false inventory
          store)) [
            | inl (e, failed) ↦ rw failed refl
            | inr (executions, built) ↦
                let (settled, written) =
                  apply_patches-built block inventory store executions built in
                let settled_run : AllOrNothing block store (ok executions) (
                    apply_patches_for_block packages driver chain_id governance_contract block
                      inventory store) =
                  subst (AllOrNothing block store (ok executions)) (sym settled)
                    (outcome packages executions, refl, outcome-IsReport executions, written) in
                subst
                  (λ b. AllOrNothing block store b (
                    apply_patches_for_block packages driver chain_id governance_contract block
                      inventory store))
                  (sym built) settled_run
          ]
