-- ===== src/Block/Proposal.antt =====
-- The proposal that a node prepares, against the pass that validates it.
use xian_abci.Prelude.{ℕ, ◌+◌, ◌≡◌, refl, inl, inr, arith, List, [], ◌∷◌, length}
use xian_abci.Prelude.Bytes.{Bytes}
use xian_abci.Prelude.Int.{ℤ, pos, ◌≤ℤ◌}
use xian_abci.Result.{Except-cases}
use xian_abci.Block.{
  Node, Progress, start, accept, admit, prepare_txs, prepare_proposal, process_txs,
  process_proposal,
}

-- The bytes of a block's transactions.
abbrev pub total_bytes : List Bytes → ℕ
total_bytes [] = 0
total_bytes (tx ∷ txs) = length tx + total_bytes txs

module _ (node : Node) where
  process-prepare_txs :
      (max_tx_bytes : ℤ) (txs : List Bytes) (p : Progress) (size : ℕ)
      → process_txs node (prepare_txs node max_tx_bytes txs p size) p ≡ accept
  unfolding prepare_txs process_txs
  process-prepare_txs max_tx_bytes [] p size = refl
  process-prepare_txs max_tx_bytes (raw ∷ txs) p size = elim (Except-cases (admit node p raw)) [
    | inl (e, refused) ↦ ground (arith, process-prepare_txs max_tx_bytes txs p size)
    | inr (p', admitted) ↦ ground (
      arith,
      process-prepare_txs max_tx_bytes txs p size,
      process-prepare_txs max_tx_bytes txs p' (size + length raw),
    )
  ]

  -- Every validator accepts the proposal that a proposer with the same state and settings prepares,
  -- whatever transactions the mempool offers and whatever the size limit is.
  pub process-prepare :
      (max_tx_bytes : ℤ) (txs : List Bytes)
      → process_proposal node (prepare_proposal node max_tx_bytes txs) ≡ accept
  unfolding process_proposal prepare_proposal
  process-prepare max_tx_bytes txs = process-prepare_txs max_tx_bytes txs start 0

  prepare_txs-bytes :
      (max_tx_bytes : ℤ) (txs : List Bytes) (p : Progress) (size : ℕ)
      → pos size ≤ℤ max_tx_bytes
      → pos (size + total_bytes (prepare_txs node max_tx_bytes txs p size)) ≤ℤ max_tx_bytes
  unfolding prepare_txs
  prepare_txs-bytes max_tx_bytes [] p size h = omega arith
  prepare_txs-bytes max_tx_bytes (raw ∷ txs) p size h = elim (Except-cases (admit node p raw)) [
    | inl (e, refused) ↦ ground (arith, prepare_txs-bytes max_tx_bytes txs p size h)
    | inr (p', admitted) ↦ ground (
      arith,
      prepare_txs-bytes max_tx_bytes txs p size h,
      prepare_txs-bytes max_tx_bytes txs p' (size + length raw),
    )
  ]

  -- A prepared proposal fits in the bytes that the request allows, where that is no negative number.
  pub prepare-fits :
      (max_tx_bytes : ℤ) (txs : List Bytes)
      → pos 0 ≤ℤ max_tx_bytes
      → pos (total_bytes (prepare_proposal node max_tx_bytes txs)) ≤ℤ max_tx_bytes
  unfolding prepare_proposal
  prepare-fits max_tx_bytes txs h = omega (arith, prepare_txs-bytes max_tx_bytes txs start 0 h)

  prepare_txs-accepted :
      (max_tx_bytes : ℤ) (txs : List Bytes) (p : Progress) (size : ℕ)
      → process_txs node txs p ≡ accept
      → pos (size + total_bytes txs) ≤ℤ max_tx_bytes
      → prepare_txs node max_tx_bytes txs p size ≡ txs
  unfolding prepare_txs process_txs
  prepare_txs-accepted max_tx_bytes [] p size h fits = refl
  prepare_txs-accepted max_tx_bytes (raw ∷ txs) p size h fits =
      elim (Except-cases (admit node p raw)) [
        | inl (e, refused) ↦ ground arith
        | inr (p', admitted) ↦
            ground (arith, prepare_txs-accepted max_tx_bytes txs p' (size + length raw))
      ]

  -- Nothing is lost: where the offered transactions are an acceptable proposal that fits, all of
  -- them are proposed, in their order.
  pub prepare-accepted :
      (max_tx_bytes : ℤ) (txs : List Bytes)
      → process_proposal node txs ≡ accept
      → pos (total_bytes txs) ≤ℤ max_tx_bytes
      → prepare_proposal node max_tx_bytes txs ≡ txs
  unfolding process_proposal prepare_proposal
  prepare-accepted max_tx_bytes txs h fits =
      prepare_txs-accepted max_tx_bytes txs start 0 h (omega arith)
