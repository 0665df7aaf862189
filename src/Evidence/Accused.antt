-- ===== src/Evidence/Accused.antt =====
-- Whom the penalties of src/xian/methods/_evidence.py can reach, and whom they do.
use mathlib.Core.Path.{subst}
use mathlib.Core.List.{Memᴰ}
use xian_abci.Prelude.{
  String, Bool, false, ◌||◌, ◌≡◌, refl, sym, ◌≢◌, ◌⊎◌, Option, none, some, List, All, [], ◌∷◌,
}
use xian_abci.Prelude.Bytes.{Bytes, bytes_eq}
use xian_abci.Prelude.Int.{ℤ, int_eq}
use xian_abci.Result.{Except, ok, err, >>=-eq-ok}
use xian_abci.Value.{Value, str, Fields}
use xian_abci.Evidence.Charge.{Punished, IsPenalty, Charged}
use xian_abci.Evidence.{
  Misbehavior, misbehavior_type_name, validator_consensus_address, find_validator, Processor,
  evidence_tx, known_validators, resolve_misbehaving_validator_key, penalized, penalize_resolved,
  penalize_typed, penalize, go_on, apply_entries, maybe_apply_evidence_penalties,
}
use xian_abci.Evidence.Search.{HasAddress, find_validator_lem}

module _ (sha256 : Bytes → Bytes) (text_of : ℤ → String) (processor : Processor)
    (meta : Value) where
  -- The key is of a known validator with the address of the entry, of a type that is punished.
  pub record IsAccused (misbehavior : Misbehavior) (infraction_type validator_key : String)
      (state : processor.State) : Type 0 where
    pub named : misbehavior_type_name misbehavior.type ≡ some infraction_type
    pub known : List Value
    pub read : known_validators sha256 text_of processor state ≡ ok known
    pub listed : Memᴰ (str validator_key) known
    pub same_address : validator_consensus_address sha256 validator_key ≡ some misbehavior.address

  resolve_lem :
      (a : Bytes) (k : String) (state : processor.State)
      → resolve_misbehaving_validator_key sha256 text_of processor a state ≡ ok (some k)
      → (known : List Value) × (known_validators sha256 text_of processor state ≡ ok known)
        × Memᴰ (str k) known
        × (validator_consensus_address sha256 k ≡ some a)
  unfolding resolve_misbehaving_validator_key
  resolve_lem [] k state h = cc
  resolve_lem (b ∷ a) k state h =
      let (known, read, found) =
        >>=-eq-ok (known_validators sha256 text_of processor state) (find_validator sha256 (b ∷ a))
          h in
      let (listed, same) = find_validator_lem sha256 (b ∷ a) known k found in
      (known, read, listed, same)

  -- No known validator has the address, which may be empty.
  abbrev pub IsStranger : Bytes → List String → Type 0
  IsStranger a known = (a ≡ []) ⊎ All (λ k. validator_consensus_address sha256 k ≢ some a) known

  penalized-state :
      (r : Except Fields × processor.State) → (penalized sha256 text_of processor r).1 ≡ r.1
  penalized-state (err e, state) = refl
  penalized-state (ok result, state) = refl

  -- An entry is charged to a validator that it accuses, with the transaction for this validator.
  abbrev pub IsCharged : Misbehavior → processor.State → Except Bool × processor.State → Type 0
  IsCharged m state r =
      (t j : String) × Punished m.type t
      × IsAccused m t j state
      × HasAddress sha256 j m.address
      × (tx : Value) × IsPenalty m t j tx
      × Charged sha256 text_of processor (processor.process_tx tx state) r

  -- An entry that nobody is charged with changes nothing, and counts for nothing.
  abbrev pub IsIgnored :
      Misbehavior → List String → processor.State → Except Bool × processor.State → Type 0
  IsIgnored m known state r =
      (((t : String) → ¬ Punished m.type t) ⊎ IsStranger m.address known) × (r ≡ (ok false, state))

  module _ (P : processor.State → Type 0) where
    penalize_resolved-keeps :
        (m : Misbehavior) (t : String) (state : processor.State) (r : Except (Option String))
        → resolve_misbehaving_validator_key sha256 text_of processor m.address state ≡ r
        → misbehavior_type_name m.type ≡ some t
        → ((k : String)
            → IsAccused m t k state
            → P (processor.process_tx (evidence_tx sha256 text_of meta m t k) state).1)
        → P state
        → P (penalize_resolved sha256 text_of processor meta m t state r).1
    penalize_resolved-keeps m t state (err e) found named keeps p = p
    penalize_resolved-keeps m t state (ok none) found named keeps p = p
    penalize_resolved-keeps m t state (ok (some k)) found named keeps p =
        let (known, read, listed, same) = resolve_lem m.address k state found in
        subst P (sym (penalized-state _)) (
          keeps k (record {
            named = named;
            known = known;
            read = read;
            listed = listed;
            same_address = same;
          }))

    penalize_typed-keeps :
        (m : Misbehavior) (state : processor.State) (t : Option String)
        → misbehavior_type_name m.type ≡ t
        → ((t k : String)
            → IsAccused m t k state
            → P (processor.process_tx (evidence_tx sha256 text_of meta m t k) state).1)
        → P state
        → P (penalize_typed sha256 text_of processor meta m state t).1
    penalize_typed-keeps m state none named keeps p = p
    penalize_typed-keeps m state (some t) named keeps p =
        penalize_resolved-keeps m t state _ refl named (keeps t) p

    penalize-keeps :
        (m : Misbehavior) (state : processor.State)
        → ((t k : String)
            → IsAccused m t k state
            → P (processor.process_tx (evidence_tx sha256 text_of meta m t k) state).1)
        → P state
        → P (penalize sha256 text_of processor meta m state).1
    unfolding penalize
    penalize-keeps m state keeps p = penalize_typed-keeps m state _ refl keeps p

    go_on-keeps :
        (r : Except Bool × processor.State)
        (next : Bool → processor.State → Except Bool × processor.State)
        → P r.1
        → ((wrote_state : Bool) (after : processor.State) → P after → P (next wrote_state after).1)
        → P (go_on sha256 text_of processor r next).1
    go_on-keeps (err e, state) next p keeps = p
    go_on-keeps (ok w, state) next p keeps = keeps w state p

    apply_entries-keeps :
        (entries : List Misbehavior) (any_applied : Bool) (state : processor.State)
        → ((m : Misbehavior) (t k : String) (s : processor.State)
            → Memᴰ m entries
            → IsAccused m t k s
            → P s
            → P (processor.process_tx (evidence_tx sha256 text_of meta m t k) s).1)
        → P state
        → P (apply_entries sha256 text_of processor meta entries any_applied state).1
    unfolding apply_entries
    apply_entries-keeps [] any_applied state keeps p = p
    apply_entries-keeps (m ∷ entries) any_applied state keeps p =
        go_on-keeps (penalize sha256 text_of processor meta m state) _
          (penalize-keeps m state (λ t k accused. keeps m t k state (Memᴰ.head refl) accused p) p)
          (λ w after q.
            apply_entries-keeps entries (any_applied || w) after
              (λ m' t k s listed. keeps m' t k s (Memᴰ.tail listed)) q)

    -- What the penalty transactions against accused validators keep, all of the evidence of a block
    -- keeps, whether it raises or not: the state changes by no other transaction, and none names a
    -- validator that is not known at that time with the address of an entry of a punished type.
    pub evidence-keeps :
        (entries : List Misbehavior) (state : processor.State)
        → ((m : Misbehavior) (t k : String) (s : processor.State)
            → Memᴰ m entries
            → IsAccused m t k s
            → P s
            → P (processor.process_tx (evidence_tx sha256 text_of meta m t k) s).1)
        → P state
        → P (maybe_apply_evidence_penalties sha256 text_of processor meta entries state).1
    unfolding maybe_apply_evidence_penalties
    evidence-keeps entries state keeps p = apply_entries-keeps entries false state keeps p
