-- ===== src/Block/Admission.antt =====
-- One admission taken apart: what has passed when a transaction is admitted.
use xian_abci.Prelude.{◌≡◌, ◌⊎◌, inl, inr, ap, sym, ◌∙◌, List, ◌∷◌, arith}
use xian_abci.Prelude.Int.{ℤ, ◌+ℤ◌}
use xian_abci.Result.{ok, >>=-eq-ok, ok_injective, Except-cases}
use xian_abci.Value.{Value}
use xian_abci.Fee.{validate_tx, tx_chi_supplied, validate_block_total}
use xian_abci.Nonce.Tracker.{validate_and_advance}
use xian_abci.Prelude.Bytes.{Bytes}
use xian_abci.Block.{
  Node, Progress, validate_in_block, decode_tx, decode_entry, decode_entries, decoded_txs,
  attach_meta,
}

module _ (node : Node) where
  -- What stands behind a step of the progress.
  pub record Admitted (p : Progress) (tx : Value) (p' : Progress) : Type 0 where
    pub chi_supplied : ℤ
    pub valid : validate_tx node.tx_fee_policy tx ≡ ok tt
    pub supplied : tx_chi_supplied tx ≡ ok chi_supplied
    pub total : p'.block_chi_supplied ≡ p.block_chi_supplied +ℤ chi_supplied
    pub within : validate_block_total node.tx_fee_policy p'.block_chi_supplied ≡ ok tt
    pub advanced :
        validate_and_advance node.committed_nonce p.nonce_tracker tx ≡ ok p'.nonce_tracker

  pub validate_in_block-Admitted :
      (p : Progress) (tx : Value) (p' : Progress)
      → validate_in_block node p tx ≡ ok p'
      → Admitted p tx p'
  unfolding validate_in_block
  validate_in_block-Admitted p tx p' h =
      let valid = >>=-eq-ok (validate_tx node.tx_fee_policy tx) _ h in
      let supplied = >>=-eq-ok (tx_chi_supplied tx) _ valid.2 in
      let next = p.block_chi_supplied +ℤ supplied.0 in
      let within = >>=-eq-ok (validate_block_total node.tx_fee_policy next) _ supplied.2 in
      let advanced =
        >>=-eq-ok (validate_and_advance node.committed_nonce p.nonce_tracker tx) _ within.2 in
      let p'-eq : record { nonce_tracker = advanced.0; block_chi_supplied = next } ≡ p' =
        ok_injective advanced.2 in
      record {
        chi_supplied = supplied.0;
        valid = valid.1;
        supplied = supplied.1;
        total = ap (λ (q : Progress). q.block_chi_supplied) (sym p'-eq);
        within =
            ap (λ (q : Progress). validate_block_total node.tx_fee_policy q.block_chi_supplied)
              (sym p'-eq)
            ∙ within.1;
        advanced = advanced.1 ∙ ap (λ (q : Progress). ok q.nonce_tracker) p'-eq;
      }

  -- One round of the decoding loop: the transaction is left out and the progress stays, or it is
  -- admitted and stands first.
  pub decoded_txs-cons :
      (meta : Value) (raw : Bytes) (txs : List Bytes) (p : Progress)
      → (decoded_txs (decode_entries node meta (raw ∷ txs) p)
          ≡ decoded_txs (decode_entries node meta txs p))
        ⊎ ((tx : Value) × (p' : Progress) × (validate_in_block node p tx ≡ ok p')
            × (decoded_txs (decode_entries node meta (raw ∷ txs) p)
                ≡ attach_meta meta tx ∷ decoded_txs (decode_entries node meta txs p')))
  unfolding decode_entries decode_entry decoded_txs
  decoded_txs-cons meta raw txs p = elim (Except-cases (decode_tx node raw)) [
    | inl (e, undecoded) ↦ inl (ground arith)
    | inr (tx, read) ↦ elim (Except-cases (validate_in_block node p tx)) [
      | inl (e, refused) ↦ inl (ground arith)
      | inr (p', admitted) ↦ inr (tx, p', admitted, ground arith)
    ]
  ]
