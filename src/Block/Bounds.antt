-- ===== src/Block/Bounds.antt =====
-- The chi of a block: what finalization executes stays within the block limit of the policy.
use text.Mathlib.Text.{◌==◌ as str_eqb}
use text.Mathlib.TextEquality.{eq_iff}
use xian_abci.Prelude.{
  String, ◌≡◌, refl, ap, ◌∙◌, inl, inr, arith, Option, none, some, List, [], ◌∷◌, false,
}
use xian_abci.Prelude.Bytes.{Bytes}
use xian_abci.Prelude.Int.{ℤ, pos, ◌+ℤ◌, ◌≤ℤ◌, int_laws}
use xian_abci.Result.{ok, err}
use xian_abci.Value.{Value, null, obj, Fields, end, field, lookup_field}
use xian_abci.Fee.{payload_chi, tx_chi_supplied, validate_block_total}
use xian_abci.Block.{
  Node, Progress, start, decode_entries, decode_block_transactions, decoded_txs, set_field,
  attach_meta,
}
use xian_abci.Block.Admission.{decoded_txs-cons, validate_in_block-Admitted}

-- The chi that a transaction supplies; one without a readable amount supplies none.
abbrev pub chi_of : Value → ℤ
chi_of tx = elim (tx_chi_supplied tx) [ ok n ↦ n | err e ↦ pos 0 ]

abbrev pub total_chi : List Value → ℤ
total_chi [] = pos 0
total_chi (tx ∷ txs) = chi_of tx +ℤ total_chi txs

pub lookup-set_field_ne :
    (k j : String) (v : Value) (fs : Fields)
    → str_eqb k j ≡ false
    → lookup_field j (set_field k v fs) ≡ lookup_field j fs
unfolding lookup_field set_field
lookup-set_field_ne k j v end ne = ground arith
lookup-set_field_ne k j v (field i w fs) ne =
    ground (arith, lookup-set_field_ne k j v fs ne, eq_iff i k, eq_iff k j)

-- The block metadata leaves the supplied chi as it is.
chi-attach_meta : (meta tx : Value) → tx_chi_supplied (attach_meta meta tx) ≡ tx_chi_supplied tx
unfolding tx_chi_supplied
chi-attach_meta meta (obj tx) =
    ap (λ (o : Option Value). payload_chi (elim o [ none ↦ null | some v ↦ v ]))
      (lookup-set_field_ne "b_meta" "payload" meta tx refl)
chi-attach_meta meta null = refl
chi-attach_meta meta _ = refl

chi_of-attach_meta :
    (meta tx : Value) {n : ℤ} → tx_chi_supplied tx ≡ ok n → chi_of (attach_meta meta tx) ≡ n
chi_of-attach_meta meta tx h = rw (chi-attach_meta meta tx ∙ h, chi_of)

chi_step :
    (before chi rest after limit own : ℤ)
    → own ≡ chi
    → after ≡ before +ℤ chi
    → after +ℤ rest ≤ℤ limit
    → before +ℤ (own +ℤ rest) ≤ℤ limit
chi_step before chi rest after limit own is_chi is_next h =
    let next : before +ℤ chi +ℤ rest ≤ℤ limit = rw is_next at h in rw is_chi (omega int_laws)

module _ (node : Node) (meta : Value) where
  within_limit :
      (total limit : ℤ)
      → node.tx_fee_policy.max_block_chi ≡ some limit
      → validate_block_total node.tx_fee_policy total ≡ ok tt
      → total ≤ℤ limit
  unfolding validate_block_total
  within_limit total limit has h = ground arith

  decode_entries-chi :
      (limit : ℤ) (txs : List Bytes) (p : Progress)
      → node.tx_fee_policy.max_block_chi ≡ some limit
      → p.block_chi_supplied ≤ℤ limit
      → p.block_chi_supplied +ℤ total_chi (decoded_txs (decode_entries node meta txs p)) ≤ℤ limit
  decode_entries-chi limit [] p has h = unfold decode_entries decoded_txs in omega int_laws
  decode_entries-chi limit (raw ∷ txs) p has h = elim (decoded_txs-cons node meta raw txs p) [
    | inl skipped ↦ rw skipped (decode_entries-chi limit txs p has h)
    | inr (tx, p', admitted, taken) ↦
        let a = validate_in_block-Admitted node p tx p' admitted in
        let own = chi_of-attach_meta meta tx a.supplied in
        let rest = decode_entries-chi limit txs p' has (within_limit _ limit has a.within) in
        rw taken (chi_step p.block_chi_supplied a.chi_supplied _ _ _ _ own a.total rest)
  ]

  -- In any block, also one that no honest node proposed, the transactions that finalization goes on
  -- to execute supply no more chi in total than the policy's block limit, where it has one that is
  -- not negative.
  pub finalize-chi-le-limit :
      (limit : ℤ) (txs : List Bytes)
      → node.tx_fee_policy.max_block_chi ≡ some limit
      → pos 0 ≤ℤ limit
      → total_chi (decoded_txs (decode_block_transactions node meta txs)) ≤ℤ limit
  unfolding decode_block_transactions
  finalize-chi-le-limit limit txs has h = omega (int_laws, decode_entries-chi limit txs start has h)
