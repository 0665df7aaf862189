-- ===== src/Mempool.antt =====
-- The admission of a transaction to the mempool: `validate_transaction_after_static` and
-- `check_enough_chi` of src/xian/utils/tx.py, and src/xian/methods/check_tx.py. The numbers of the
-- contract runtime and the reads of the contract state are parameters.
pub mod Accepted
mod Tests
use xian_abci.Prelude.{String, Bool, true, false, not, ◌&&◌, if◌then◌else◌, Option, none, some}
use xian_abci.Prelude.Bytes.{Bytes}
use xian_abci.Prelude.Int.{ℤ, pos}
use xian_abci.Result.{
  Except, ok, err, transaction, too_few_chi, balance_lookup, chi_lookup, raise_if, ◌>>=◌, ◌>>◌,
}
use xian_abci.Value.{Value, null, obj, get_item, equals_text}
use xian_abci.Fee.{TxFeePolicy, validate_tx}
use xian_abci.Transaction.{item_of, get_method}
use xian_abci.Nonce.Storage.{Settings, Pending, check_nonce}
use xian_abci.Block.{Node, decode_tx}

-- The arithmetic of balances. A value that is no number raises.
pub record Decimals : Type 1 where
  pub Number : Type 0
  pub of_int : ℤ → Number
  pub of_value : Value → Number
  pub mul : Number → Number → Except Number
  pub sub : Number → Number → Except Number
  pub div : Number → Number → Except Number
  pub lt : Number → Number → Except Bool
  -- `convert_dict`
  pub convert_dict : Value → Except Number

-- The readings of the clock that `check_nonce` takes.
pub record Clock : Type 0 where
  pub first : ℤ
  pub now : ℤ
  pub later : ℤ

module _ (decimals : Decimals) where
  -- The reads of the client: the balance of a sender, and the chi rate.
  pub record Client : Type 0 where
    pub balance_of : Value → Except (Option decimals.Number)
    pub chi_rate : Except (Option decimals.Number)

  unfoldable pub check_enough_chi :
      decimals.Number
      → decimals.Number
      → decimals.Number
      → Value
      → Value
      → decimals.Number
      → Except (Unit {0})
  check_enough_chi balance chi_per_tau chi_supplied contract function amount = do
    available ← decimals.mul balance chi_per_tau
    few ← decimals.lt available chi_supplied
    raise_if few (transaction too_few_chi)
    (if equals_text contract "currency" && equals_text function "transfer"
        then (do
          rest ← decimals.sub balance amount
          chi ← decimals.mul rest chi_per_tau
          sixth ← decimals.div chi (decimals.of_int (pos 6))
          few_left ← decimals.lt sixth (decimals.of_int (pos 2))
          raise_if few_left (transaction too_few_chi))
        else ok tt)

  -- What a lookup of the client raises becomes a refusal.
  abbrev read_balance : Except (Option decimals.Number) → Except decimals.Number
  read_balance (err e) = err (transaction balance_lookup)
  read_balance (ok none) = ok (decimals.of_int (pos 0))
  read_balance (ok (some balance)) = ok balance

  abbrev read_rate : Except (Option decimals.Number) → Except decimals.Number
  read_rate (err e) = err (transaction chi_lookup)
  read_rate (ok none) = ok (decimals.of_int (pos 20))
  read_rate (ok (some rate)) = ok rate

  -- `None` counts as 0, and a dict is converted.
  abbrev number_of : Value → Except decimals.Number
  number_of null = ok (decimals.of_int (pos 0))
  number_of (obj fs) = decimals.convert_dict (obj fs)
  number_of v = ok (decimals.of_value v)

  abbrev supplied_of : Value → decimals.Number
  supplied_of null = decimals.of_int (pos 0)
  supplied_of v = decimals.of_value v

  -- A lookup whose argument `tx["payload"]["sender"]` raises is refused like one that fails.
  unfoldable pub check_balance : Client → Value → Except (Unit {0})
  check_balance client tx = do
    balance ← read_balance (item_of tx "payload" "sender" >>= client.balance_of)
    chi_rate ← read_rate client.chi_rate
    contract ← item_of tx "payload" "contract"
    function ← item_of tx "payload" "function"
    chi_supplied ← item_of tx "payload" "chi_supplied"
    kwargs ← item_of tx "payload" "kwargs"
    given ← get_method kwargs "amount" null
    amount ← number_of given
    check_enough_chi balance chi_rate (supplied_of chi_supplied) contract function amount

  -- The checks before the reservation.
  unfoldable pub check_funds : Client → Option TxFeePolicy → Value → Except (Unit {0})
  check_funds client none tx = check_balance client tx
  check_funds client (some policy) tx = do
    validate_tx policy tx
    (if policy.require_chi_balance then check_balance client tx else ok tt)

  module _ (settings : Settings) (committed_nonce : String → Option ℤ) where
    abbrev pub reserve_after :
        Clock → Pending → Value → String → Except (Unit {0}) → Except (Unit {0}) × Pending
    reserve_after clock p tx tx_hash (err e) = (err e, p)
    reserve_after clock p tx tx_hash (ok _) =
        check_nonce settings committed_nonce clock.first clock.now clock.later p tx tx_hash

    unfoldable pub validate_transaction_after_static :
        Clock → Client → Option TxFeePolicy → Pending → Value → String → Except (Unit {0}) × Pending
    validate_transaction_after_static clock client fee_policy p tx tx_hash =
        reserve_after clock p tx tx_hash (check_funds client fee_policy tx)

    -- `hash_of` is the hexadecimal SHA-256 of the bytes.
    abbrev pub check_decoded :
        (Bytes → String)
        → Node
        → Clock
        → Client
        → Pending
        → Bytes
        → Except Value
        → Except (Unit {0}) × Pending
    check_decoded hash_of node clock client p raw_tx (err e) = (err e, p)
    check_decoded hash_of node clock client p raw_tx (ok tx) =
        validate_transaction_after_static clock client (some node.tx_fee_policy) p tx
          (hash_of raw_tx)

    -- An error is the response with the error code. The read caches of the driver, which are put
    -- back in every case, are left out.
    unfoldable pub check_tx :
        (Bytes → String) → Node → Clock → Client → Pending → Bytes → Except (Unit {0}) × Pending
    check_tx hash_of node clock client p raw_tx =
        check_decoded hash_of node clock client p raw_tx (decode_tx node raw_tx)
