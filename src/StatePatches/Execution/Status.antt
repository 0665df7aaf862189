-- ===== src/StatePatches/Execution/Status.antt =====
-- A patch is applied once: the status that `_mark_patch_applied` of src/xian/utils/state_patches.py
-- leaves, and what a later reading of the schedule makes of it.
use mathlib.Core.Path.{subst}
use xian_abci.Prelude.{
  String, ◌≡◌, ◌≢◌, refl, sym, ◌∙◌, ap, true, false, Option, none, some, List, [], ◌∷◌, All,
  if◌then◌else◌, not, Bool, all, ◌==◌, string_eq, nat_eq, neq_of_false, beq_refl,
}
use xian_abci.Prelude.Int.{ℤ}
use xian_abci.Result.{Except, ok, err}
use xian_abci.Value.{Value, str, truth}
use xian_abci.Value.Number.{codes}
use xian_abci.StatePatches.{Packages, Change, split_dots, source_contract}
use xian_abci.StatePatches.Bundle.{Inventory}
use xian_abci.StatePatches.Execution.Writes.{Converts, WritesAll, Done}
use xian_abci.StatePatches.Execution.Atomic.{apply_patches-built, apply_built-Done}
use xian_abci.StatePatches.Schedule.{Driver, patch_var, read_item}
use xian_abci.StatePatches.Execution.{
  PatchExecution, Block, ir_key, and_then, set_artifacts, set_value, apply_as, apply_changes,
  apply_single_bundle, mark_patch_applied, apply_each, build_executions, apply_patches_for_block,
}

if_same {ℓ} : {A : Type ℓ} (b : Bool) (x : A) → (if b then x else x) ≡ x
if_same true x = refl
if_same false x = refl

abbrev has_no_colon : String → Bool
has_no_colon name = all (λ c. not (c == b':')) (codes name)

-- What the driver promises of the keys: a variable of a patch has the key
-- `<contract>.patches:<patch_id>:<name>`.
pub record DriverLaws (packages : Packages) (driver : Driver) (governance_contract : String)
    : Type 0 where
  -- the key of the status of a patch
  pub status_key : String → String
  pub status-set_status :
      (patch_id other : String) (v : Value) (store : driver.Store)
      → patch_var driver governance_contract patch_id "status"
          (driver.set_var governance_contract "patches" (other ∷ "status" ∷ []) v store)
        ≡ (if other == patch_id
            then v
            else patch_var driver governance_contract patch_id "status" store)
  pub status-set_other :
      (patch_id other name : String) (v : Value) (store : driver.Store)
      → name ≢ "status"
      → has_no_colon name ≡ true
      → patch_var driver governance_contract patch_id "status"
          (driver.set_var governance_contract "patches" (other ∷ name ∷ []) v store)
        ≡ patch_var driver governance_contract patch_id "status" store
  pub status-set :
      (patch_id key : String) (v : Value) (store : driver.Store)
      → status_key patch_id ≢ key
      → patch_var driver governance_contract patch_id "status" (driver.set key v store)
        ≡ patch_var driver governance_contract patch_id "status" store
  pub no_ir_key : (patch_id contract : String) → status_key patch_id ≢ ir_key packages contract

module _ (packages : Packages) (driver : Driver) (chain_id : Option String)
    (governance_contract : String) (converts : Converts packages)
    (laws : DriverLaws packages driver governance_contract) where
  abbrev status : String → driver.Store → Value
  status patch_id = patch_var driver governance_contract patch_id "status"

  status-set_value :
      (patch_id : String) (change : Change) (r : Except Value) (store : driver.Store)
      → laws.status_key patch_id ≢ change.key
      → status patch_id (set_value packages driver chain_id governance_contract change r store).1
        ≡ status patch_id store
  status-set_value patch_id change (err e) store h = refl
  status-set_value patch_id change (ok v) store h = laws.status-set patch_id change.key v store h

  status-set_artifacts :
      (patch_id contract : String) (change : Change) (r : Except (Value × Value))
      (store : driver.Store)
      → laws.status_key patch_id ≢ change.key
      → status patch_id
          (set_artifacts packages driver chain_id governance_contract contract change r store).1
        ≡ status patch_id store
  status-set_artifacts patch_id contract change (err e) store h = refl
  status-set_artifacts patch_id contract change (ok (source, ir)) store h =
      laws.status-set patch_id (ir_key packages contract) ir (driver.set change.key source store)
        (laws.no_ir_key patch_id contract)
      ∙ laws.status-set patch_id change.key source store h

  status-apply_as :
      (patch_id : String) (contract : Option String) (change : Change) (store : driver.Store)
      → laws.status_key patch_id ≢ change.key
      → status patch_id
          (apply_as packages driver chain_id governance_contract contract change store).1
        ≡ status patch_id store
  status-apply_as patch_id none change store h = status-set_value patch_id change _ store h
  status-apply_as patch_id (some contract) change store h =
      status-set_artifacts patch_id contract change _ store h

  -- None of the changes is of the status of the patch.
  abbrev pub SparesStatus : String → List Change → Type 0
  SparesStatus patch_id = All (λ change. laws.status_key patch_id ≢ change.key)

  -- What each step keeps, a chain of two keeps.
  and_then-keeps :
      (patch_id : String) (v : Value) (r : Except (Unit {0}) × driver.Store)
      (next : driver.Store → Except (Unit {0}) × driver.Store)
      → status patch_id r.1 ≡ v
      → ((store : driver.Store) → status patch_id store ≡ v → status patch_id (next store).1 ≡ v)
      → status patch_id (and_then packages driver chain_id governance_contract r next).1 ≡ v
  and_then-keeps patch_id v (err e, store) next h n = h
  and_then-keeps patch_id v (ok _, store) next h n = n store h

  status-apply_changes :
      (patch_id : String) (v : Value) (changes : List Change) (store : driver.Store)
      → SparesStatus patch_id changes
      → status patch_id store ≡ v
      → status patch_id (apply_changes packages driver chain_id governance_contract changes store).1
        ≡ v
  unfolding apply_changes
  status-apply_changes patch_id v [] store s h = h
  status-apply_changes patch_id v (change ∷ changes) store s h =
      let contract = source_contract (split_dots change.key) in
      and_then-keeps patch_id v
        (apply_as packages driver chain_id governance_contract contract change store) _
        (status-apply_as patch_id contract change store s.0 ∙ h)
        (λ written. status-apply_changes patch_id v changes written s.1)

  -- The status after a patch has been marked.
  status-mark :
      (patch_id : String) (block : Block) (execution : PatchExecution) (store : driver.Store)
      → status patch_id
          (mark_patch_applied packages driver chain_id governance_contract block execution store)
        ≡ (if execution.patch.patch_id == patch_id then str "applied" else status patch_id store)
  unfolding mark_patch_applied
  status-mark patch_id block execution store =
      let other = execution.patch.patch_id in
      laws.status-set_other patch_id other "execution_hash" _ _
        (neq_of_false "execution_hash" "status" refl) refl
      ∙ laws.status-set_other patch_id other "applied_at_nanos" _ _
          (neq_of_false "applied_at_nanos" "status" refl) refl
      ∙ laws.status-set_other patch_id other "applied_block_hash" _ _
          (neq_of_false "applied_block_hash" "status" refl) refl
      ∙ laws.status-set_other patch_id other "applied_block_height" _ _
          (neq_of_false "applied_block_height" "status" refl) refl
      ∙ laws.status-set_status patch_id other _ store

  status-apply_each :
      (patch_id : String) (block : Block) (executions : List PatchExecution) (store : driver.Store)
      → All (λ execution. SparesStatus patch_id execution.bundle.changes) executions
      → status patch_id store ≡ str "applied"
      → status patch_id
          (apply_each packages driver chain_id governance_contract block executions store).1
        ≡ str "applied"
  unfolding apply_each
  status-apply_each patch_id block [] store s h = h
  status-apply_each patch_id block (execution ∷ executions) store s h =
      and_then-keeps patch_id (str "applied")
        (apply_single_bundle packages driver chain_id governance_contract execution store) _
        (status-apply_changes patch_id (str "applied") execution.bundle.changes store s.0 h)
        (λ written kept.
          status-apply_each patch_id block executions
            (mark_patch_applied packages driver chain_id governance_contract block execution
              written)
            s.1
            (status-mark patch_id block execution written
              ∙ ap (λ v. if execution.patch.patch_id == patch_id then str "applied" else v) kept
              ∙ if_same (execution.patch.patch_id == patch_id) (str "applied")))

  -- No change of the executions is of the status of a patch.
  abbrev pub Spares : List PatchExecution → Type 0
  Spares executions =
      (patch_id : String)
      → All (λ execution. SparesStatus patch_id execution.bundle.changes) executions

  abbrev pub AllApplied : driver.Store → List PatchExecution → Type 0
  AllApplied store = All (λ execution. status execution.patch.patch_id store ≡ str "applied")

  -- What `apply_each` leaves where it has not raised.
  abbrev Left : List PatchExecution → Except (Unit {0}) × driver.Store → Type 0
  Left executions (err e, store) = Unit
  Left executions (ok _, store) = AllApplied store executions

  Left-cons :
      (execution : PatchExecution) (executions : List PatchExecution)
      (r : Except (Unit {0}) × driver.Store)
      → status execution.patch.patch_id r.1 ≡ str "applied"
      → Left executions r
      → Left (execution ∷ executions) r
  Left-cons execution executions (err e, store) h l = tt
  Left-cons execution executions (ok _, store) h l = (h, l)

  and_then-Left :
      (executions : List PatchExecution) (r : Except (Unit {0}) × driver.Store)
      (next : driver.Store → Except (Unit {0}) × driver.Store)
      → ((store : driver.Store) → Left executions (next store))
      → Left executions (and_then packages driver chain_id governance_contract r next)
  and_then-Left executions (err e, store) next h = tt
  and_then-Left executions (ok _, store) next h = h store

  apply_each-Left :
      (block : Block) (executions : List PatchExecution) (store : driver.Store)
      → Spares executions
      → Left executions
          (apply_each packages driver chain_id governance_contract block executions store)
  unfolding apply_each
  apply_each-Left block [] store s = tt
  apply_each-Left block (execution ∷ executions) store s =
      let patch_id = execution.patch.patch_id in
      let mark = mark_patch_applied packages driver chain_id governance_contract block execution in
      and_then-Left (execution ∷ executions)
        (apply_single_bundle packages driver chain_id governance_contract execution store) _
        (λ written.
          Left-cons execution executions
            (apply_each packages driver chain_id governance_contract block executions
              (mark written))
            (status-apply_each patch_id block executions (mark written) (s patch_id).1 (
              status-mark patch_id block execution written
              ∙ ap (λ b. if b then str "applied" else status patch_id written) (beq_refl patch_id)))
            (apply_each-Left block executions (mark written) (λ p. (s p).1)))

  AllApplied-Left :
      (P : driver.Store → Type 0) (executions : List PatchExecution)
      (r : Except (Unit {0}) × driver.Store)
      → Done packages driver chain_id governance_contract converts P r
      → Left executions r
      → AllApplied r.1 executions
  AllApplied-Left P executions (err e, store) d l = absurd d
  AllApplied-Left P executions (ok _, store) d l = l

  -- A patch whose status is "applied" is not read again unless the applied ones are asked for.
  read_item-applied :
      (patch_id : String) (height : ℤ) (scheduled : Value) (store : driver.Store)
      → status patch_id store ≡ str "applied"
      → read_item driver governance_contract height false store patch_id scheduled ≡ ok none
  unfolding read_item
  read_item-applied patch_id height scheduled store h =
      rw h (if_same (not (truth scheduled)) (ok none))

  -- A patch has been applied, and a reading for a later height passes over it.
  abbrev pub IsDone : ℤ → Value → driver.Store → PatchExecution → Type 0
  IsDone later scheduled store execution =
      (status execution.patch.patch_id store ≡ str "applied")
      × (read_item driver governance_contract later false store execution.patch.patch_id scheduled
          ≡ ok none)

  All-IsDone :
      (later : ℤ) (scheduled : Value) (store : driver.Store) (executions : List PatchExecution)
      → AllApplied store executions
      → All (IsDone later scheduled store) executions
  All-IsDone later scheduled store [] h = tt
  All-IsDone later scheduled store (execution ∷ executions) h = (
    (h.0, read_item-applied execution.patch.patch_id later scheduled store h.0),
    All-IsDone later scheduled store executions h.1,
  )

  -- What a call has left, if it has returned.
  abbrev pub OnceApplied :
      ℤ → Value → List PatchExecution → Except (Option String × List Value) × driver.Store → Type 0
  OnceApplied later scheduled executions (err e, store) = ⊥
  OnceApplied later scheduled executions (ok r, store) =
      All (IsDone later scheduled store) executions

  -- Where `convert_dict` does not raise, the driver keeps its laws, and no change of the executions
  -- of a block writes the status of a patch: a call whose executions can be built returns, and then
  -- each patch that it has executed has the status "applied", and the reading of the scheduled
  -- patches that are still to be applied passes over it, at whatever height and whatever the
  -- schedule has for it.
  pub apply_patches-OnceApplied :
      (block : Block) (inventory : Inventory) (store : driver.Store)
      (executions : List PatchExecution) (later : ℤ) (scheduled : Value)
      → build_executions packages driver chain_id governance_contract block.height false inventory
          store
        ≡ ok executions
      → Spares executions
      → OnceApplied later scheduled executions (
          apply_patches_for_block packages driver chain_id governance_contract block inventory
            store)
  apply_patches-OnceApplied block inventory store executions later scheduled built s =
      let run = apply_each packages driver chain_id governance_contract block executions store in
      let (settled, _) =
        apply_patches-built packages driver chain_id governance_contract converts block inventory
          store executions built in
      subst (OnceApplied later scheduled executions) (sym settled) (
        All-IsDone later scheduled run.1 executions (
          AllApplied-Left (WritesAll packages driver governance_contract block executions store)
            executions run
            (apply_built-Done packages driver chain_id governance_contract converts block inventory
              store executions built)
            (apply_each-Left block executions store s)))
