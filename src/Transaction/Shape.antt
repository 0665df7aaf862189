-- ===== src/Transaction/Shape.antt =====
-- What the static validation guarantees to every later step: the transaction has the fields that
-- those steps read, with the types that they need.
use xian_abci.Prelude.{
  ℕ, zero, suc, String, Bool, true, false, not, ◌≡◌, ◌≤◌, refl, sym, ap, ◌∙◌, arith, some,
  Option-cases, inl, inr,
}
use text.Mathlib.TextEquality.{eq_iff}
use xian_abci.Prelude.Int.{pos}
use xian_abci.Result.{
  Except, ok, err, transaction, bad_signature, wrong_chain_id, raise_if, raise_unless-ok, >>=-eq-ok,
  ok_injective,
}
use xian_abci.Value.{
  Value, null, int, str, obj, Fields, lookup_field, get_field, get_item, equals_text, truth, to_int,
}
use xian_abci.Fee.{tx_chi_supplied, payload_chi, given_chi}
use xian_abci.Formatting.{cid_id_formated}
use xian_abci.Formatting.Laws.{number_shape, vk_shape, identifier_shape, kwargs_shape}
use xian_abci.Encoding.{Host}
use xian_abci.Transaction.{
  check_tx_keys, check_tx_formatting, unpack_transaction, validate_transaction_static, get_method,
  check_payload, check_metadata,
}
use xian_abci.Transaction.Rules.{
  Rule, RuleFields, rule, call, table, recurse_rules, recurse_fields, recurse_argument, and_then,
  check_format, dict_has_keys, transaction_rules, transaction_payload_rules, rule_keys,
}

-- The shape of a transaction that has passed.
pub record WellFormed (chain_id : String) (tx : Value) : Type 0 where
  pub fields : Fields
  pub payload : Fields
  pub sender : String
  pub contract : String
  pub function : String
  pub kwargs : Fields
  pub nonce : ℕ
  pub chi_supplied : ℕ
  pub is_dict : tx ≡ obj fields
  pub has_payload : lookup_field "payload" fields ≡ some (obj payload)
  pub has_sender : lookup_field "sender" payload ≡ some (str sender)
  pub has_contract : lookup_field "contract" payload ≡ some (str contract)
  pub has_function : lookup_field "function" payload ≡ some (str function)
  pub has_kwargs : lookup_field "kwargs" payload ≡ some (obj kwargs)
  pub has_nonce : lookup_field "nonce" payload ≡ some (int (pos nonce))
  pub has_chi : lookup_field "chi_supplied" payload ≡ some (int (pos chi_supplied))
  pub has_chain_id : lookup_field "chain_id" payload ≡ some (str chain_id)
  pub nonce_fits : nonce ≤ 18446744073709551615
  pub chi_fits : chi_supplied ≤ 18446744073709551615

and_then-true : (r s : Except Bool) → and_then r s ≡ ok true → (r ≡ ok true) × (s ≡ ok true)
and_then-true (ok true) s h = (refl, h)
and_then-true (ok false) s h = cc
and_then-true (err e) s h = cc

-- One rule that has passed, and the rest.
rule_passed :
    (key : String) (sub : Rule) (rest : RuleFields) (fs : Fields)
    → recurse_fields (rule key sub rest) (obj fs) ≡ ok true
    → (v : Value) × (lookup_field key fs ≡ some v)
      × (recurse_argument sub v ≡ ok true)
      × (recurse_fields rest (obj fs) ≡ ok true)
unfolding recurse_rules
rule_passed key sub rest fs h = elim (Option-cases (lookup_field key fs)) [
  | inl absent ↦ absurd (ground arith)
  | inr (v, here) ↦
      let both =
        and_then-true (recurse_argument sub v) (recurse_fields rest (obj fs)) (ground arith) in
      (v, here, both.0, both.1)
]

-- A callable that has passed.
call_passed :
    (test : Value → Bool) (v : Value) → recurse_argument (call test) v ≡ ok true → test v ≡ true
unfolding recurse_rules
call_passed test v h = ok_injective h

-- A table that has passed on what must be a dict.
table_passed :
    (fields : RuleFields) (v : Value)
    → (fs : Fields) → v ≡ obj fs
    → recurse_argument (table fields) v ≡ ok true
    → recurse_fields fields (obj fs) ≡ ok true
unfolding recurse_rules
table_passed fields v fs e h = rw e at h

payload_is_dict : (v : Value) → check_payload v ≡ ok tt → (fs : Fields) × (v ≡ obj fs)
payload_is_dict (obj fs) h = (fs, refl)
payload_is_dict null h = cc
payload_is_dict _ h = cc

-- The table of the payload, rule by rule.
payload_shape :
    (chain_id : String) (fs payload : Fields)
    → lookup_field "payload" fs ≡ some (obj payload)
    → recurse_fields transaction_payload_rules (obj payload) ≡ ok true
    → lookup_field "chain_id" payload ≡ some (str chain_id)
    → WellFormed chain_id (obj fs)
payload_shape chain_id fs payload there h same_chain =
    let a = rule_passed "sender" _ _ payload h in
    let b = rule_passed "nonce" _ _ payload a.3 in
    let c = rule_passed "chi_supplied" _ _ payload b.3 in
    let d = rule_passed "contract" _ _ payload c.3 in
    let e = rule_passed "function" _ _ payload d.3 in
    let f = rule_passed "kwargs" _ _ payload e.3 in
    let sender = vk_shape a.0 (call_passed _ a.0 a.2) in
    let nonce = number_shape b.0 (call_passed _ b.0 b.2) in
    let chi = number_shape c.0 (call_passed _ c.0 c.2) in
    let contract = identifier_shape d.0 (call_passed _ d.0 d.2) in
    let function = identifier_shape e.0 (call_passed _ e.0 e.2) in
    let kwargs = kwargs_shape f.0 (call_passed _ f.0 f.2) in
    record {
      fields = fs;
      payload = payload;
      sender = sender.0;
      contract = contract.0;
      function = function.0;
      kwargs = kwargs.0;
      nonce = nonce.0;
      chi_supplied = chi.0;
      is_dict = refl;
      has_payload = there;
      has_sender = a.1 ∙ ap some sender.1;
      has_contract = d.1 ∙ ap some contract.1;
      has_function = e.1 ∙ ap some function.1;
      has_kwargs = f.1 ∙ ap some kwargs.1;
      has_nonce = b.1 ∙ ap some nonce.1;
      has_chi = c.1 ∙ ap some chi.1;
      has_chain_id = same_chain;
      nonce_fits = nonce.2;
      chi_fits = chi.2;
    }

get_item-eq :
    (fs : Fields) (k : String) (v : Value) → lookup_field k fs ≡ some v → get_item (obj fs) k ≡ ok v
unfolding get_item
get_item-eq fs k v h = ground arith

get_method-eq :
    (fs : Fields) (k : String) (v d : Value)
    → lookup_field k fs ≡ some v
    → get_method (obj fs) k d ≡ ok v
get_method-eq fs k v d h = ground arith

text_equal : (v : Value) (s t : String) → v ≡ str s → equals_text v t ≡ true → s ≡ t
unfolding equals_text
text_equal v s t e h = (eq_iff s t).0 (rw e at h)

chain_id_shape : (v : Value) → cid_id_formated v ≡ true → (s : String) × (v ≡ str s)
unfolding cid_id_formated
chain_id_shape (str s) h = (s, refl)
chain_id_shape null h = cc
chain_id_shape _ h = cc

-- A formatted transaction has a payload whose rules have passed.
formatted_payload :
    (fs : Fields)
    → check_tx_formatting (obj fs) ≡ ok tt
    → (payload : Fields) × (lookup_field "payload" fs ≡ some (obj payload))
      × (recurse_fields transaction_payload_rules (obj payload) ≡ ok true)
unfolding check_tx_formatting check_format check_tx_keys
formatted_payload fs h =
    let keys_ok = >>=-eq-ok (check_tx_keys fs) _ h in
    let payload_ok = (>>=-eq-ok (check_metadata (get_field "metadata" fs)) _ keys_ok.1).2 in
    let format_ok =
      >>=-eq-ok (raise_if (not (dict_has_keys fs (rule_keys transaction_rules))) _) _ keys_ok.2 in
    let rules_ok = >>=-eq-ok (recurse_rules (table transaction_rules) (obj fs)) _ format_ok.2 in
    let all_rules : recurse_fields transaction_rules (obj fs) ≡ ok true =
      unfold recurse_rules in rules_ok.1 ∙ ap ok (raise_unless-ok _ _ rules_ok.2) in
    let metadata = rule_passed "metadata" _ _ fs all_rules in
    let payload = rule_passed "payload" _ _ fs metadata.3 in
    let same : get_field "payload" fs ≡ payload.0 = rw (payload.1, get_field) in
    let dict = payload_is_dict payload.0 (rw same at payload_ok) in
    (
      dict.0,
      payload.1 ∙ ap some dict.1,
      table_passed transaction_payload_rules payload.0 dict.0 dict.1 payload.2,
    )

chain_id_rule :
    (payload : Fields)
    → recurse_fields transaction_payload_rules (obj payload) ≡ ok true
    → (s : String) × (lookup_field "chain_id" payload ≡ some (str s))
chain_id_rule payload h =
    let a = rule_passed "sender" _ _ payload h in
    let b = rule_passed "nonce" _ _ payload a.3 in
    let c = rule_passed "chi_supplied" _ _ payload b.3 in
    let d = rule_passed "contract" _ _ payload c.3 in
    let e = rule_passed "function" _ _ payload d.3 in
    let f = rule_passed "kwargs" _ _ payload e.3 in
    let g = rule_passed "chain_id" _ _ payload f.3 in
    let text = chain_id_shape g.0 (call_passed _ g.0 g.2) in (text.0, g.1 ∙ ap some text.1)

-- A transaction that passes the static validation has every field that the later steps read: texts
-- for the sender, the contract and the function, a dict of arguments, a nonce and an amount of chi
-- from 0 to 2^64 - 1, and the chain id of the node.
pub validate_transaction_static-WellFormed :
    (host : Host) (tx : Value) (chain_id : String)
    → validate_transaction_static host tx chain_id ≡ ok tt
    → WellFormed chain_id tx
unfolding validate_transaction_static
validate_transaction_static-WellFormed host (obj fs) chain_id h =
    let formatting = >>=-eq-ok (check_tx_formatting (obj fs)) _ h in
    let payload = formatted_payload fs formatting.1 in
    let given = chain_id_rule payload.0 payload.2 in
    let unpacked = >>=-eq-ok (unpack_transaction host (obj fs)) _ formatting.2 in
    let verified = >>=-eq-ok (host.verify_message _ _ _) _ unpacked.2 in
    let signed = >>=-eq-ok (raise_if (not verified.0) (transaction bad_signature)) _ verified.2 in
    let dict = >>=-eq-ok (get_item (obj fs) "payload") _ signed.2 in
    let is_payload : obj payload.0 ≡ dict.0 =
      ok_injective (sym (get_item-eq fs "payload" (obj payload.0) payload.1) ∙ dict.1) in
    let id = >>=-eq-ok (get_method dict.0 "chain_id" (str "")) _ dict.2 in
    let is_id : id.0 ≡ str given.0 = ok_injective (
      sym id.1
      ∙ (ap (λ v. get_method v "chain_id" (str "")) (sym is_payload)
          ∙ get_method-eq payload.0 "chain_id" (str given.0) (str "") given.1)) in
    let checked =
      >>=-eq-ok (raise_if (not (equals_text id.0 chain_id)) (transaction wrong_chain_id)) _ id.2 in
    let same = text_equal id.0 given.0 chain_id is_id (raise_unless-ok _ _ checked.1) in
    payload_shape chain_id fs payload.0 payload.1 payload.2 (given.1 ∙ ap (λ s. some (str s)) same)
validate_transaction_static-WellFormed host null chain_id h = unfold check_tx_formatting in cc
validate_transaction_static-WellFormed host _ chain_id h = unfold check_tx_formatting in cc

-- The amount that the limits read off a payload with a number in it.
int_chi : (n : ℕ) → given_chi (int (pos n)) ≡ ok (pos n)
unfolding truth to_int
int_chi zero = refl
int_chi (suc n) = ground arith

number_chi : (n : ℕ) (v : Value) → v ≡ int (pos n) → given_chi v ≡ ok (pos n)
number_chi n v e = ap given_chi e ∙ int_chi n

-- The reading of its chi is the amount in the payload.
tx_chi_supplied-WellFormed :
    (chain_id : String) (tx : Value) (w : WellFormed chain_id tx)
    → tx_chi_supplied tx ≡ ok (pos w.chi_supplied)
unfolding tx_chi_supplied
tx_chi_supplied-WellFormed chain_id tx w =
    let payload : get_field "payload" w.fields ≡ obj w.payload = rw (w.has_payload, get_field) in
    let chi : get_field "chi_supplied" w.payload ≡ int (pos w.chi_supplied) =
      rw (w.has_chi, get_field) in
    ap tx_chi_supplied w.is_dict
    ∙ (ap payload_chi payload ∙ number_chi w.chi_supplied (get_field "chi_supplied" w.payload) chi)

-- Where the static validation has passed, the fee policy's reading of the supplied chi cannot fail,
-- and gives an amount from 0 to 2^64 - 1.
pub tx_chi_supplied-validated :
    (host : Host) (tx : Value) (chain_id : String)
    → validate_transaction_static host tx chain_id ≡ ok tt
    → (n : ℕ) × (tx_chi_supplied tx ≡ ok (pos n)) × (n ≤ 18446744073709551615)
tx_chi_supplied-validated host tx chain_id h =
    let w = validate_transaction_static-WellFormed host tx chain_id h in
    (w.chi_supplied, tx_chi_supplied-WellFormed chain_id tx w, w.chi_fits)
