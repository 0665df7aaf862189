-- ===== src/Evidence/Charge.antt =====
-- What a penalty of src/xian/methods/_evidence.py is: the transaction, and what counts of its
-- result.
use Prim.Native.String.{◌++◌ as text_append}
use Prim.Native.Char.{Char}
use xian_abci.Prelude.{
  String, Bool, true, false, ◌≡◌, ◌↔◌, refl, Option, none, some, List, [], ◌∷◌, if◌then◌else◌,
}
use xian_abci.Prelude.Int.{ℤ, pos}
use xian_abci.Prelude.Bytes.{Bytes}
use xian_abci.Result.{Except, ok, err}
use xian_abci.Value.{
  Value, null, bool, int, float, str, arr, obj, Fields, Items, end, field, nil, cons, equals_int,
  lookup_field, get_field,
}
use xian_abci.Evidence.{
  Misbehavior, Processor, evidence_tx, applied, penalized, wrote, misbehavior_evidence_id,
}

-- The types that are punished, by CometBFT's numbers.
pub data Punished : ℤ → String → Type 0 where
  duplicate_vote : Punished (pos 1) "DUPLICATE_VOTE"
  light_client_attack : Punished (pos 2) "LIGHT_CLIENT_ATTACK"

-- The value at a path of keys.
abbrev pub at : List String → Value → Option Value
at [] v = some v
at (k ∷ ks) (obj fs) = elim (lookup_field k fs) [ none ↦ none | some v ↦ at ks v ]
at (k ∷ ks) _ = none

-- The transaction asks the contract of the validators to punish the validator with this key for an
-- entry. It is free, and its signature is made of the id that it gives to the evidence.
pub record IsPenalty (m : Misbehavior) (infraction_type validator_key : String) (tx : Value)
    : Type 0 where
  pub evidence_id : String
  pub sender : at ("payload" ∷ "sender" ∷ []) tx ≡ some (str "__evidence_penalty_driver__")
  pub contract : at ("payload" ∷ "contract" ∷ []) tx ≡ some (str "validators")
  pub function : at ("payload" ∷ "function" ∷ []) tx ≡ some (str "apply_evidence_penalty")
  pub member : at ("payload" ∷ "kwargs" ∷ "member" ∷ []) tx ≡ some (str validator_key)
  pub infraction :
      at ("payload" ∷ "kwargs" ∷ "infraction_type" ∷ []) tx ≡ some (str infraction_type)
  pub height : at ("payload" ∷ "kwargs" ∷ "evidence_height" ∷ []) tx ≡ some (int m.height)
  pub evidence : at ("payload" ∷ "kwargs" ∷ "evidence_id" ∷ []) tx ≡ some (str evidence_id)
  pub chi : at ("payload" ∷ "chi_supplied" ∷ []) tx ≡ some (int (pos 0))
  pub signature :
      at ("metadata" ∷ "signature" ∷ []) tx
      ≡ some (str (text_append "evidence-penalty:" evidence_id))

-- What a `for` has something to go through in.
pub data Filled : Value → Type 0 where
  list : (v : Value) → (vs : Items) → Filled (arr (cons v vs))
  dict : (k : String) (v : Value) (fs : Fields) → Filled (obj (field k v fs))
  text : (c : Char) (s : String) → Filled (str (String.◌∷◌ c s))

-- The transaction has succeeded, and has written state.
abbrev pub HasWritten : Value → Type 0
HasWritten tx_result =
    (fs : Fields) × (tx_result ≡ obj fs)
    × (equals_int (get_field "status" fs) (pos 0) ≡ true)
    × (state : Value) × (lookup_field "state" fs ≡ some state)
    × Filled state

Filled-wrote : {v : Value} → Filled v → wrote (some v) ≡ ok true
Filled-wrote (list v vs) = refl
Filled-wrote (dict k v fs) = refl
Filled-wrote (text c s) = refl

wrote-Filled : (v : Value) → wrote (some v) ≡ ok true → Filled v
wrote-Filled (arr (cons v vs)) h = list v vs
wrote-Filled (obj (field k v fs)) h = dict k v fs
wrote-Filled (str (String.◌∷◌ c s)) h = text c s
wrote-Filled (arr nil) h = cc
wrote-Filled (obj end) h = cc
wrote-Filled (str String.[]) h = cc
wrote-Filled null h = cc
wrote-Filled (bool b) h = cc
wrote-Filled (int i) h = cc
wrote-Filled (float x) h = cc

some_written : (o : Option Value) → wrote o ≡ ok true → (v : Value) × (o ≡ some v) × Filled v
some_written none h = cc
some_written (some v) h = (v, refl, wrote-Filled v h)

both_true :
    (b : Bool) (r : Except Bool)
    → (if b then r else ok false) ≡ ok true
    → (b ≡ true) × (r ≡ ok true)
both_true true r h = (refl, h)
both_true false r h = cc

applied-obj : (fs : Fields) → applied (obj fs) ≡ ok true → HasWritten (obj fs)
applied-obj fs h =
    let (status, written) = both_true (equals_int (get_field "status" fs) (pos 0)) _ h in
    let (state, there, filled) = some_written (lookup_field "state" fs) written in
    (fs, refl, status, state, there, filled)

HasWritten-applied : (tx_result : Value) → HasWritten tx_result → applied tx_result ≡ ok true
HasWritten-applied tx_result (fs, same, status, state, there, filled) =
    rw (same, status, there) (Filled-wrote filled)

applied_iff : (tx_result : Value) → (applied tx_result ≡ ok true) ↔ HasWritten tx_result
applied_iff (obj fs) = (applied-obj fs, HasWritten-applied (obj fs))
applied_iff null = (λ h. cc, HasWritten-applied null)
applied_iff (bool b) = (λ h. cc, HasWritten-applied (bool b))
applied_iff (int i) = (λ h. cc, HasWritten-applied (int i))
applied_iff (float x) = (λ h. cc, HasWritten-applied (float x))
applied_iff (str s) = (λ h. cc, HasWritten-applied (str s))
applied_iff (arr vs) = (λ h. cc, HasWritten-applied (arr vs))

module _ (sha256 : Bytes → Bytes) (text_of : ℤ → String) where
  pub evidence_tx-IsPenalty :
      (meta : Value) (m : Misbehavior) (t k : String)
      → IsPenalty m t k (evidence_tx sha256 text_of meta m t k)
  unfolding evidence_tx lookup_field
  evidence_tx-IsPenalty meta m t k = record {
    evidence_id = misbehavior_evidence_id sha256 text_of m k;
    sender = refl;
    contract = refl;
    function = refl;
    member = refl;
    infraction = refl;
    height = refl;
    evidence = refl;
    chi = refl;
    signature = refl;
  }

  module _ (processor : Processor) where
    -- What an entry comes to, by what the processor gave for its transaction: the state is the
    -- processor's, what it raises goes on, and the entry counts exactly if state was written.
    abbrev pub Charged : Except Fields × processor.State → Except Bool × processor.State → Type 0
    Charged (err e, after) r = r ≡ (err e, after)
    Charged (ok result, after) r =
        (r.1 ≡ after) × ((r.0 ≡ ok true) ↔ HasWritten (get_field "tx_result" result))

    pub penalized-Charged :
        (r : Except Fields × processor.State) → Charged r (penalized sha256 text_of processor r)
    penalized-Charged (err e, after) = refl
    penalized-Charged (ok result, after) = (refl, applied_iff (get_field "tx_result" result))
