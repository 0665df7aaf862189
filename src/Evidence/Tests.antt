-- ===== src/Evidence/Tests.antt =====
-- src/xian/methods/_evidence.py with two known validators and a processor that notes what it is
-- given. The digest is the identity.
use mathlib.Core.Path.{subst}
use mathlib.Core.List.{Memᴰ}
use xian_abci.Prelude.{String, ◌≡◌, refl, sym, ap, ◌∙◌, ◌≢◌, some, List, [], ◌∷◌, All, arith}
use xian_abci.Prelude.Bytes.{Bytes}
use xian_abci.Prelude.Int.{ℤ, pos}
use xian_abci.Result.{ok, ok_injective}
use xian_abci.Value.{Value, null, int, str, arr, obj, nil, cons, Fields, end, field}
use xian_abci.Encoding.{from_hex}
use xian_abci.Evidence.{
  Misbehavior, validator_consensus_address, Processor, evidence_tx, known_validators,
  maybe_apply_evidence_penalties,
}
use xian_abci.Evidence.Accused.{IsAccused, evidence-keeps}

abbrev identity : Bytes → Bytes
identity b = b

abbrev digits : ℤ → String
digits i = "1"

abbrev recorder : Processor
recorder = record {
  State = List Value;
  get = λ key state. arr (cons (str "aa") (cons (str "bb") nil));
  process_tx = λ tx state. (
    ok (
        field "tx_result"
          (obj (field "status" (int (pos 0)) (field "state" (arr (cons null nil)) end))) end),
    tx ∷ state,
  );
}

abbrev vote : Misbehavior
vote = record {
  type = pos 1;
  address = 170 ∷ [];
  height = pos 5;
  seconds = pos 7;
  nanos = pos 0;
  total_voting_power = pos 20;
}

-- Every transaction is against the first validator.
abbrev AgainstFirst : List Value → Type 0
AgainstFirst txs =
    All (λ tx. (m : Misbehavior) × (t : String) × (tx ≡ evidence_tx identity digits null m t "aa"))
      txs

one_known :
    (state : List Value)
    → known_validators identity digits recorder state ≡ ok (str "aa" ∷ str "bb" ∷ [])
unfolding known_validators xian_abci.Value.truth
one_known state = refl

address_aa : validator_consensus_address identity "aa" ≡ some (170 ∷ [])
unfolding from_hex
address_aa = refl

address_bb : validator_consensus_address identity "bb" ≡ some (187 ∷ [])
unfolding from_hex
address_bb = refl

str_injective : {a b : String} → str a ≡ str b → a ≡ b
str_injective h = cc

two_addresses : {a b : Bytes} → a ≡ 187 ∷ [] → b ≡ 170 ∷ [] → some a ≢ some b
two_addresses p q h = ground (arith, p, q, h)

address_of : (m : Misbehavior) → Memᴰ m (vote ∷ vote ∷ []) → m.address ≡ 170 ∷ []
address_of m (Memᴰ.head same) = ap (λ n. n.address) same
address_of m (Memᴰ.tail (Memᴰ.head same)) = ap (λ n. n.address) same
address_of m (Memᴰ.tail (Memᴰ.tail more)) = elim more [ ]

-- Of the two keys, the first alone has the address.
first_of_two :
    (k : String)
    → Memᴰ (str k) (str "aa" ∷ str "bb" ∷ [])
    → validator_consensus_address identity k ≡ some (170 ∷ [])
    → k ≡ "aa"
first_of_two k (Memᴰ.head same) h = str_injective same
first_of_two k (Memᴰ.tail (Memᴰ.head same)) h =
    let other : some (187 ∷ []) ≡ some (170 ∷ []) =
      sym address_bb ∙ ap (validator_consensus_address identity) (sym (str_injective same)) ∙ h in
    elim (two_addresses refl refl other) [ ]
first_of_two k (Memᴰ.tail (Memᴰ.tail more)) h = elim more [ ]

accused_first :
    (t k : String) (m : Misbehavior) (state : List Value)
    → Memᴰ m (vote ∷ vote ∷ [])
    → IsAccused identity digits recorder null m t k state
    → k ≡ "aa"
accused_first t k m state listed accused =
    first_of_two k
      (subst (Memᴰ (str k)) (ok_injective (sym accused.read ∙ one_known state)) accused.listed)
      (accused.same_address ∙ ap some (address_of m listed))

evidence-keeps_example :
    AgainstFirst
      (maybe_apply_evidence_penalties identity digits recorder null (vote ∷ vote ∷ []) []).1
evidence-keeps_example =
    evidence-keeps identity digits recorder null AgainstFirst (vote ∷ vote ∷ []) []
      (λ m t k s listed accused p. (
        (m, t, ap (evidence_tx identity digits null m t) (accused_first t k m s listed accused)),
        p,
      ))
      tt
