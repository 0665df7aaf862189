-- ===== src/StatePatches/Tests/Memory.antt =====
-- A driver for src/xian/utils/state_patches.py that keeps two dicts, and packages for it.
use Prim.Native.String.{◌++◌ as text_append}
use Prim.Native.String.append
use mathlib.Core.Path.{subst}
use text.Mathlib.Text.{starts_with}
use xian_abci.Prelude.{
  String, ◌≡◌, ◌≢◌, refl, Option, none, some, List, [], ◌∷◌, string_eq, if◌then◌else◌, arith, ◌==◌,
  ◌&&◌, ◌∙◌, Bool-cases, inl, inr, ℕ,
}
use xian_abci.Prelude.Dict.{Dict, lookup, insert, lookup-insert}
use xian_abci.Result.{ok}
use xian_abci.Value.Number.{codes}
use xian_abci.Value.{Value, null, str, obj, end, field}
use xian_abci.StatePatches.{Packages}
use xian_abci.StatePatches.Schedule.{Driver}
use xian_abci.StatePatches.Execution.Status.{DriverLaws}

abbrev shown : Value → String
shown (str s) = s
shown _ = "..."

abbrev pub packages : Packages
packages = record {
  dumps = shown;
  dumps_compact = shown;
  hexdigest = λ _. "digest";
  text_of = λ _. "5";
  build_contract_artifacts =
      λ name source. ok (obj (field "source" source (field "vm_ir_json" (str name) end)));
  convert_dict = λ v. ok v;
  vm_ir_key = "ir";
}

-- One dict for the keys, and one for the variables of each patch.
abbrev pub Store : Type 0
Store = Dict String Value × Dict String (Dict String Value)

abbrev with_prefix : String → Dict String Value → Dict String Value
with_prefix prefix [] = []
with_prefix prefix ((key, v) ∷ items) =
    let rest = with_prefix prefix items in if starts_with key prefix then (key, v) ∷ rest else rest

abbrev value_of : Option Value → Value
value_of none = null
value_of (some v) = v

abbrev variables : Option (Dict String Value) → Dict String Value
variables none = []
variables (some d) = d

abbrev get_var : String → String → List String → Store → Value
get_var contract variable (patch_id ∷ name ∷ []) store =
    value_of (lookup name (variables (lookup patch_id store.1)))
get_var contract variable _ store = null

abbrev set_var : String → String → List String → Value → Store → Store
set_var contract variable (patch_id ∷ name ∷ []) v store =
    (store.0, insert patch_id (insert name v (variables (lookup patch_id store.1))) store.1)
set_var contract variable _ v store = store

abbrev pub driver : Driver
driver = record {
  Store = Store;
  items = λ prefix store. with_prefix prefix store.0;
  get_var = get_var;
  set_var = set_var;
  set = λ key v store. (insert key v store.0, store.1);
}

abbrev IsEmpty : List ℕ → Type 0
IsEmpty [] = Unit
IsEmpty (c ∷ cs) = ⊥

pub not_empty : (contract : String) → "" ≢ text_append contract ".ir"
not_empty String.[] = λ e. subst (λ t. IsEmpty (codes t)) (e ∙ append.nil ".ir") tt
not_empty (String.◌∷◌ c s) = λ e. subst (λ t. IsEmpty (codes t)) (e ∙ append.cons c s ".ir") tt

-- The status after a write of a variable of a patch.
status_after :
    (patch_id other name : String) (v : Value) (vars : Dict String (Dict String Value))
    → value_of (
        lookup "status" (
          variables
            (lookup patch_id (insert other (insert name v (variables (lookup other vars))) vars))))
      ≡ (if other == patch_id && name == "status"
          then v
          else value_of (lookup "status" (variables (lookup patch_id vars))))
status_after patch_id other name v vars = elim (Bool-cases (other == patch_id)) [
  | inl same ↦
      let same_id = (string_eq.same_iff other patch_id).0 same in
      rw
        (
          lookup-insert other patch_id,
          same,
          lookup-insert name "status" v (variables (lookup other vars)),
          same_id,
        )
        (ground arith)
  | inr differs ↦ rw (lookup-insert other patch_id, differs) refl
]

pub after_status :
    (patch_id other : String) (v : Value) (store : Store)
    → get_var "governance" "patches"
        (patch_id ∷ "status" ∷ [])
        (set_var "governance" "patches" (other ∷ "status" ∷ []) v store)
      ≡ (if other == patch_id
          then v
          else get_var "governance" "patches" (patch_id ∷ "status" ∷ []) store)
after_status patch_id other v store = ground (arith, status_after patch_id other "status" v store.1)

pub after_other :
    (patch_id other name : String) (v : Value) (store : Store)
    → name ≢ "status"
    → get_var "governance" "patches"
        (patch_id ∷ "status" ∷ [])
        (set_var "governance" "patches" (other ∷ name ∷ []) v store)
      ≡ get_var "governance" "patches" (patch_id ∷ "status" ∷ []) store
after_other patch_id other name v store differs =
    ground (arith, status_after patch_id other name v store.1, string_eq.same_iff name "status")

abbrev pub laws : DriverLaws packages driver "governance"
laws = record {
  status_key = λ _. "";
  status-set_status = after_status;
  status-set_other =
      λ patch_id other name v store differs plain. after_other patch_id other name v store differs;
  status-set = λ patch_id key v store differs. refl;
  no_ir_key = λ patch_id contract. not_empty contract;
}
