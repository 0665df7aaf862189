-- ===== src/Mempool/Accepted.antt =====
-- What an accepted CheckTx has established.
use xian_abci.Prelude.{String, if◌then◌else◌, ◌≡◌, refl, Option, some}
use xian_abci.Prelude.Bytes.{Bytes}
use xian_abci.Prelude.Int.{ℤ}
use xian_abci.Result.{Except, ok, err, >>=-eq-ok}
use xian_abci.Value.{Value}
use xian_abci.Fee.{validate_tx}
use xian_abci.Nonce.Storage.{Settings, Pending, of_sender, read_nonce, nonce_key}
use xian_abci.Nonce.Storage.Reserve.{HeldFor}
use xian_abci.Nonce.Storage.Outcome.{check_nonce-Reserved}
use xian_abci.Block.{Node, decode_tx}
use xian_abci.Mempool.{
  Decimals, Client, Clock, check_balance, check_funds, reserve_after,
  validate_transaction_after_static, check_decoded, check_tx,
}

module _ (decimals : Decimals) (settings : Settings) (committed_nonce : String → Option ℤ) where
  -- The transaction's nonce is reserved for it.
  pub record IsReserved (p : Pending) (tx : Value) (tx_hash : String) : Type 0 where
    pub value : Value
    pub sender : String
    pub n : ℤ
    pub reads : read_nonce tx ≡ ok (value, sender)
    pub key : nonce_key value ≡ ok (some n)
    pub held : HeldFor tx_hash n (of_sender sender p)

  reserve_after-ok :
      (clock : Clock) (p : Pending) (tx : Value) (tx_hash : String) (checked : Except (Unit {0}))
      → (reserve_after decimals settings committed_nonce clock p tx tx_hash checked).0 ≡ ok tt
      → (checked ≡ ok tt)
        × IsReserved
            (reserve_after decimals settings committed_nonce clock p tx tx_hash checked).1
            tx
            tx_hash
  reserve_after-ok clock p tx tx_hash (err e) h = cc
  reserve_after-ok clock p tx tx_hash (ok u) h =
      let (value, sender, n, reads, key, held) =
        check_nonce-Reserved settings committed_nonce clock.first clock.now clock.later p tx tx_hash
          h in
      (
        refl,
        record { value = value; sender = sender; n = n; reads = reads; key = key; held = held },
      )

  check_decoded-ok :
      (hash_of : Bytes → String) (node : Node) (clock : Clock) (client : Client decimals)
      (p : Pending) (raw_tx : Bytes) (read : Except Value)
      → (check_decoded decimals settings committed_nonce hash_of node clock client p raw_tx read).0
        ≡ ok tt
      → (tx : Value) × (read ≡ ok tx)
        × (check_funds decimals client (some node.tx_fee_policy) tx ≡ ok tt)
        × IsReserved
            (check_decoded decimals settings committed_nonce hash_of node clock client p raw_tx
              read).1
            tx
            (hash_of raw_tx)
  unfolding validate_transaction_after_static
  check_decoded-ok hash_of node clock client p raw_tx (err e) h = cc
  check_decoded-ok hash_of node clock client p raw_tx (ok tx) h =
      let (checked, reserved) =
        reserve_after-ok clock p tx (hash_of raw_tx)
          (check_funds decimals client (some node.tx_fee_policy) tx) h in
      (tx, refl, checked, reserved)

  -- Where CheckTx accepts some bytes, the static decoding and validation of the node has accepted
  -- them as a transaction, which keeps the fee policy's limits and, if the policy asks for a
  -- balance, has passed the check of its balance; and its nonce is then reserved for it under the
  -- hash of the bytes.
  pub check_tx-accepted :
      (hash_of : Bytes → String) (node : Node) (clock : Clock) (client : Client decimals)
      (p : Pending) (raw_tx : Bytes)
      → (check_tx decimals settings committed_nonce hash_of node clock client p raw_tx).0 ≡ ok tt
      → (tx : Value) × (decode_tx node raw_tx ≡ ok tx)
        × (validate_tx node.tx_fee_policy tx ≡ ok tt)
        × ((if node.tx_fee_policy.require_chi_balance
              then check_balance decimals client tx
              else ok tt)
            ≡ ok tt)
        × IsReserved
            (check_tx decimals settings committed_nonce hash_of node clock client p raw_tx).1
            tx
            (hash_of raw_tx)
  unfolding check_tx check_funds
  check_tx-accepted hash_of node clock client p raw_tx h =
      let (tx, read, funds, reserved) =
        check_decoded-ok hash_of node clock client p raw_tx (decode_tx node raw_tx) h in
      let valid = >>=-eq-ok (validate_tx node.tx_fee_policy tx) _ funds in
      (tx, read, valid.1, valid.2, reserved)
