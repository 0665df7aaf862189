-- ===== src/Block/Nonces.antt =====
-- The nonces of a block: of each sender, one after the other with no gap.
use text.Mathlib.TextEquality.{eq_iff}
use mathlib.Core.Path.{subst}
use xian_abci.Prelude.Dict.{lookup}
use xian_abci.Prelude.{
  String, Bool, true, false, ◌≡◌, refl, sym, ap, ◌∙◌, inl, inr, ◌==◌, string_eq, if◌then◌else◌,
  Option, none, some, List, [], ◌∷◌, Bool-cases, Option-cases,
}
use xian_abci.Prelude.Bytes.{Bytes}
use xian_abci.Prelude.Int.{ℤ, pos, ◌+ℤ◌}
use xian_abci.Result.{Except, ok, err, ◌>>=◌, key_error}
use xian_abci.Value.{Value, str, null, obj, get_item, equals_int, equals_text}
use xian_abci.Transaction.{item_of}
use xian_abci.Nonce.Tracker.{Tracker, new_tracker, expected_nonce}
use xian_abci.Nonce.Tracker.Advance.{validate_and_advance-Advanced, expected-insert}
use xian_abci.Block.{
  Node, Progress, start, decode_entries, decode_block_transactions, decoded_txs, attach_meta,
}
use xian_abci.Block.Admission.{decoded_txs-cons, validate_in_block-Admitted}
use xian_abci.Block.Bounds.{lookup-set_field_ne}

abbrev pub is_from : String → Value → Bool
is_from sender tx = elim (item_of tx "payload" "sender") [
  | ok v ↦ equals_text v sender
  | err e ↦ false
]

abbrev pub nonce_value : Value → Value
nonce_value tx = elim (item_of tx "payload" "nonce") [ ok v ↦ v | err e ↦ null ]

-- The nonces of one sender's transactions, in order.
abbrev pub nonces_of : String → List Value → List Value
nonces_of sender [] = []
nonces_of sender (tx ∷ txs) =
    if is_from sender tx then nonce_value tx ∷ nonces_of sender txs else nonces_of sender txs

-- The values are the ints n, n + 1, and so on.
abbrev pub Consecutive : ℤ → List Value → Type 0
Consecutive n [] = Unit
Consecutive n (v ∷ vs) = (equals_int v n ≡ true) × Consecutive (n +ℤ pos 1) vs

-- The nonce after a committed one, or 0.
abbrev pub after_committed : Option ℤ → ℤ
after_committed none = pos 0
after_committed (some n) = n +ℤ pos 1

-- A new tracker goes by the committed nonces.
expected-new :
    (committed_nonce : String → Option ℤ) (sender : String)
    → expected_nonce committed_nonce new_tracker sender ≡ after_committed (committed_nonce sender)
unfolding expected_nonce lookup
expected-new committed_nonce sender = elim (Option-cases (committed_nonce sender)) [
  | inl e ↦ rw e refl
  | inr (n, e) ↦ rw e refl
]

-- The block metadata leaves the payload as it is.
payload-attach_meta :
    (meta tx : Value) → get_item (attach_meta meta tx) "payload" ≡ get_item tx "payload"
unfolding get_item
payload-attach_meta meta (obj tx) =
    ap
      (λ (o : Option Value).
        let r : Except Value = elim o [ none ↦ err key_error | some v ↦ ok v ] in r)
      (lookup-set_field_ne "b_meta" "payload" meta tx refl)
payload-attach_meta meta null = refl
payload-attach_meta meta _ = refl

item_of-eq :
    (tx payload v : Value) (k : String)
    → get_item tx "payload" ≡ ok payload
    → get_item payload k ≡ ok v
    → item_of tx "payload" k ≡ ok v
item_of-eq tx payload v k h e = ap (λ (r : Except Value). r >>= λ dict. get_item dict k) h ∙ e

is_from-eq :
    (sender other : String) (tx : Value)
    → item_of tx "payload" "sender" ≡ ok (str other)
    → is_from sender tx ≡ (other == sender)
unfolding equals_text
is_from-eq sender other tx h =
    ap
      (λ (r : Except Value).
        let b : Bool = elim r [ ok v ↦ equals_text v sender | err e ↦ false ] in b)
      h

nonce_value-eq : (tx v : Value) → item_of tx "payload" "nonce" ≡ ok v → nonce_value tx ≡ v
nonce_value-eq tx v h =
    ap (λ (r : Except Value). let b : Value = elim r [ ok v ↦ v | err e ↦ null ] in b) h

-- One transaction in front: of the sender at hand, with the nonce expected, or of another one.
Consecutive-cons :
    (sender other : String) (tx nonce : Value) (n n' m : ℤ) (xs : List Value)
    → is_from sender tx ≡ (other == sender)
    → nonce_value tx ≡ nonce
    → equals_int nonce m ≡ true
    → (other ≡ sender → m ≡ n)
    → n' ≡ (if other == sender then m +ℤ pos 1 else n)
    → Consecutive n' xs
    → Consecutive n (if is_from sender tx then nonce_value tx ∷ xs else xs)
Consecutive-cons sender other tx nonce n n' m xs from has expected same next rest =
    elim (Bool-cases (other == sender)) [
      | inl e ↦
          let m≡n : m ≡ n = same ((eq_iff other sender).0 e) in
          let n'≡ : n' ≡ n +ℤ pos 1 = next ∙ (rw (e, m≡n)) in
          rw (from ∙ e, if◌then◌else◌) (rw (sym has, m≡n) at expected, rw n'≡ at rest)
      | inr ne ↦ let n'≡ : n' ≡ n = next ∙ (rw ne) in rw (from ∙ ne) (rw n'≡ at rest)
    ]

module _ (node : Node) (meta : Value) where
  decode_entries-nonces :
      (sender : String) (txs : List Bytes) (p : Progress)
      → Consecutive
          (expected_nonce node.committed_nonce p.nonce_tracker sender)
          (nonces_of sender (decoded_txs (decode_entries node meta txs p)))
  decode_entries-nonces sender [] p = unfold decode_entries decoded_txs in tt
  decode_entries-nonces sender (raw ∷ txs) p = elim (decoded_txs-cons node meta raw txs p) [
    | inl skipped ↦ rw skipped (decode_entries-nonces sender txs p)
    | inr (tx, p', admitted, taken) ↦
        let a = validate_in_block-Admitted node p tx p' admitted in
        let b =
          validate_and_advance-Advanced node.committed_nonce p.nonce_tracker tx p'.nonce_tracker
            a.advanced in
        let here : get_item (attach_meta meta tx) "payload" ≡ ok b.payload =
          payload-attach_meta meta tx ∙ b.has_payload in
        let expected = expected_nonce node.committed_nonce p.nonce_tracker in
        rw taken (
          Consecutive-cons sender b.sender (attach_meta meta tx) b.nonce (expected sender)
            (expected_nonce node.committed_nonce p'.nonce_tracker sender) (expected b.sender)
            (nonces_of sender (decoded_txs (decode_entries node meta txs p')))
            (is_from-eq sender b.sender _ (item_of-eq _ b.payload _ "sender" here b.has_sender))
            (nonce_value-eq _ _ (item_of-eq _ b.payload _ "nonce" here b.has_nonce)) b.is_expected
            (ap expected)
            (ap (λ (t : Tracker). expected_nonce node.committed_nonce t sender) b.next
              ∙ expected-insert node.committed_nonce p.nonce_tracker b.sender sender)
            (decode_entries-nonces sender txs p'))
  ]

  -- In any block, the transactions of a sender that finalization goes on to execute carry
  -- consecutive nonces, from the one after the sender's committed nonce (0 where there is none).
  pub finalize-nonces :
      (sender : String) (txs : List Bytes)
      → Consecutive
          (after_committed (node.committed_nonce sender))
          (nonces_of sender (decoded_txs (decode_block_transactions node meta txs)))
  unfolding decode_block_transactions
  finalize-nonces sender txs =
      subst
        (λ n. Consecutive n (nonces_of sender (decoded_txs (decode_entries node meta txs start))))
        (expected-new node.committed_nonce sender) (decode_entries-nonces sender txs start)
