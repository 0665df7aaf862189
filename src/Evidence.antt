-- ===== src/Evidence.antt =====
-- src/xian/methods/_evidence.py: the penalty transactions that the misbehaviour reports of a block
-- bring. The transaction processor and the driver that it writes to are parameters, and so are
-- sha256 and `str` of an int.

pub mod Charge
pub mod Search
pub mod Accused
mod Tests
use Prim.Native.String.{◌++◌ as ◌+++◌}
use xian_abci.Prelude.{
  ℕ, zero, suc, String, Bool, true, false, not, ◌||◌, if◌then◌else◌, ◌==◌, Option, none, some, List,
  [], ◌∷◌, map,
}
use xian_abci.Prelude.Bytes.{Bytes, bytes_eq, utf8}
use xian_abci.Prelude.Int.{ℤ, pos, int_eq}
use xian_abci.Result.{Except, ok, err, Failure, type_error, attribute_error, ◌>>=◌}
use xian_abci.Value.{
  Value, null, bool, int, float, str, arr, obj, Items, nil, cons, Fields, end, field, truth,
  equals_int, lookup_field, get_field, keys,
}
use xian_abci.Value.Number.{codes}
use xian_abci.Encoding.{hex, from_hex}

pub record Misbehavior : Type 0 where
  pub type : ℤ
  pub address : Bytes
  pub height : ℤ
  pub seconds : ℤ
  pub nanos : ℤ
  pub total_voting_power : ℤ

-- The first bytes of a digest, `digest[:n]`.
abbrev pub first : ℕ → Bytes → Bytes
first zero digest = []
first (suc n) [] = []
first (suc n) (b ∷ digest) = b ∷ first n digest

abbrev pub misbehavior_type_name : ℤ → Option String
misbehavior_type_name raw_type =
    if raw_type == pos 1
    then some "DUPLICATE_VOTE"
    else if raw_type == pos 2
    then some "LIGHT_CLIENT_ATTACK"
    else none

abbrev items : Items → List Value
items nil = []
items (cons v vs) = v ∷ items vs

abbrev symbols : String → List Value
symbols String.[] = []
symbols (String.◌∷◌ c s) = str (String.◌∷◌ c String.[]) ∷ symbols s

-- What a `for` goes through.
abbrev pub iterated : Value → Except (List Value)
iterated (arr vs) = ok (items vs)
iterated (obj fs) = ok (map str (keys fs))
iterated (str s) = ok (symbols s)
iterated _ = err type_error

-- `a or b`
abbrev pub or_else : Value → Value → Value
or_else a b = if truth a then a else b

abbrev pub digest_prefix : (Bytes → Bytes) → Except Bytes → Option Bytes
digest_prefix sha256 (err e) = none
digest_prefix sha256 (ok key) = some (first 20 (sha256 key))

abbrev pub validator_consensus_address : (Bytes → Bytes) → String → Option Bytes
validator_consensus_address sha256 pubkey_hex = digest_prefix sha256 (from_hex (codes pubkey_hex))

abbrev pub is_address : Option Bytes → Bytes → Bool
is_address none validator_address = false
is_address (some consensus_address) validator_address = consensus_address == validator_address

-- The loop over the known validators: the first with the address.
unfoldable pub find_validator : (Bytes → Bytes) → Bytes → List Value → Except (Option String)
find_validator sha256 validator_address [] = ok none
find_validator sha256 validator_address (str validator_key ∷ known_validators) =
    let rest = find_validator sha256 validator_address known_validators in
    if is_address (validator_consensus_address sha256 validator_key) validator_address
    then ok (some validator_key)
    else rest
find_validator sha256 validator_address (_ ∷ known_validators) = err type_error

abbrev pub system_evidence_sender : String
system_evidence_sender = "__evidence_penalty_driver__"

-- The text of a name in a format string.
abbrev named : Option String → String
named none = "None"
named (some name) = name

-- The transaction processor with the driver: a call that raises leaves a state, too.
pub record Processor : Type 1 where
  pub State : Type 0
  -- `raw_driver.get(key, save=False)`
  pub get : String → State → Value
  pub process_tx : Value → State → Except Fields × State

module _ (sha256 : Bytes → Bytes) (text_of : ℤ → String) where
  unfoldable pub misbehavior_evidence_id : Misbehavior → String → String
  misbehavior_evidence_id misbehavior validator_key = hex (
      sha256 (
        utf8 (
          named (misbehavior_type_name misbehavior.type)
          +++ ":"
          +++ validator_key
          +++ ":"
          +++ hex misbehavior.address
          +++ ":"
          +++ text_of misbehavior.height
          +++ ":"
          +++ text_of misbehavior.seconds
          +++ ":"
          +++ text_of misbehavior.nanos
          +++ ":"
          +++ text_of misbehavior.total_voting_power)))

  unfoldable pub evidence_tx : Value → Misbehavior → String → String → Value
  evidence_tx current_block_meta misbehavior infraction_type validator_key =
      let evidence_id = misbehavior_evidence_id misbehavior validator_key in
      obj (
        field "payload"
          (obj (
            field "sender" (str system_evidence_sender) (
              field "contract" (str "validators") (
                field "function" (str "apply_evidence_penalty") (
                  field "kwargs"
                    (obj (
                      field "member" (str validator_key) (
                        field "infraction_type" (str infraction_type) (
                          field "evidence_id" (str evidence_id)
                            (field "evidence_height" (int misbehavior.height) end)))))
                    (field "chi_supplied" (int (pos 0)) end))))))
          (field "metadata"
            (obj (field "signature" (str ("evidence-penalty:" +++ evidence_id)) end))
            (field "b_meta" current_block_meta end)))

-- `len(tx_result.get("state", [])) > 0`
abbrev pub wrote : Option Value → Except Bool
wrote none = ok false
wrote (some writes) = do entries ← iterated writes; ok (elim entries [ [] ↦ false | _ ∷ _ ↦ true ])

-- Whether a penalty wrote state, from what the processor gave.
abbrev pub applied : Value → Except Bool
applied null = ok false
applied (obj tx_result) =
    if equals_int (get_field "status" tx_result) (pos 0)
    then wrote (lookup_field "state" tx_result)
    else ok false
applied _ = err attribute_error

module _ (sha256 : Bytes → Bytes) (text_of : ℤ → String) (processor : Processor) where
  unfoldable pub known_validators : processor.State → Except (List Value)
  known_validators state = iterated (
      or_else
        (or_else (processor.get "validators.validator_registry" state)
          (processor.get "validators.active_validators" state))
        (arr nil))

  unfoldable pub resolve_misbehaving_validator_key :
      Bytes → processor.State → Except (Option String)
  resolve_misbehaving_validator_key [] state = ok none
  resolve_misbehaving_validator_key (b ∷ address) state = do
    known ← known_validators state
    find_validator sha256 (b ∷ address) known

  abbrev pub penalized : Except Fields × processor.State → Except Bool × processor.State
  penalized (err e, state) = (err e, state)
  penalized (ok result, state) = (applied (get_field "tx_result" result), state)

  abbrev pub penalize_resolved :
      Value
      → Misbehavior
      → String
      → processor.State
      → Except (Option String)
      → Except Bool × processor.State
  penalize_resolved meta misbehavior infraction_type state (err e) = (err e, state)
  penalize_resolved meta misbehavior infraction_type state (ok none) = (ok false, state)
  penalize_resolved meta misbehavior infraction_type state (ok (some validator_key)) = penalized (
      processor.process_tx
        (evidence_tx sha256 text_of meta misbehavior infraction_type validator_key) state)

  abbrev pub penalize_typed :
      Value → Misbehavior → processor.State → Option String → Except Bool × processor.State
  penalize_typed meta misbehavior state none = (ok false, state)
  penalize_typed meta misbehavior state (some infraction_type) =
      penalize_resolved meta misbehavior infraction_type state
        (resolve_misbehaving_validator_key misbehavior.address state)

  -- The body of the loop: whether this entry wrote state.
  unfoldable pub penalize : Value → Misbehavior → processor.State → Except Bool × processor.State
  penalize meta misbehavior state =
      penalize_typed meta misbehavior state (misbehavior_type_name misbehavior.type)

  abbrev pub go_on :
      Except Bool × processor.State
      → (Bool → processor.State → Except Bool × processor.State)
      → Except Bool × processor.State
  go_on (err e, state) next = (err e, state)
  go_on (ok wrote_state, state) next = next wrote_state state

  unfoldable pub apply_entries :
      Value → List Misbehavior → Bool → processor.State → Except Bool × processor.State
  apply_entries meta [] any_applied state = (ok any_applied, state)
  apply_entries meta (misbehavior ∷ entries) any_applied state =
      go_on (penalize meta misbehavior state)
        (λ wrote_state after. apply_entries meta entries (any_applied || wrote_state) after)

  unfoldable pub maybe_apply_evidence_penalties :
      Value → List Misbehavior → processor.State → Except Bool × processor.State
  maybe_apply_evidence_penalties meta misbehavior_entries state =
      apply_entries meta misbehavior_entries false state
