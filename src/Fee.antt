-- ===== src/Fee.antt =====
-- src/xian/fee_policy.py: how a transaction is metered and charged, and the chi limits of a
-- transaction and of a block.
pub mod Config
pub mod Limits
mod Tests
use xian_abci.Prelude.{String, Bool, true, false, not, ◌&&◌, if◌then◌else◌, Option, none, some}
use xian_abci.Prelude.Int.{ℤ, pos, ltb_ℤ, leb_ℤ}
use xian_abci.Result.{
  Except, ok, err, Failure, transaction, value_error, type_error, chi_invalid, payload_not_dict,
  chi_not_positive, tx_chi_limit, block_chi_limit, raise_if, ◌>>=◌, ◌>>◌,
}
use xian_abci.Value.{Value, null, int, obj, truth, to_int, get_field}

pub data Mode : Type 0 where
  paid_mode free_mode system_mode : Mode

abbrev pub default_free_tx_max_chi : ℤ
default_free_tx_max_chi = pos 1_000_000

abbrev pub default_free_block_max_chi : ℤ
default_free_block_max_chi = pos 20_000_000

pub record TxFeePolicy : Type 0 where
  pub mode : Mode
  pub meter_execution : Bool
  pub charge_fees : Bool
  pub distribute_fee_rewards : Bool
  pub require_chi_balance : Bool
  pub max_tx_chi : Option ℤ
  pub max_block_chi : Option ℤ

unfoldable pub paid_metered : Option ℤ → Option ℤ → TxFeePolicy
paid_metered max_tx_chi max_block_chi = record {
  mode = paid_mode;
  meter_execution = true;
  charge_fees = true;
  distribute_fee_rewards = true;
  require_chi_balance = true;
  max_tx_chi = max_tx_chi;
  max_block_chi = max_block_chi;
}

unfoldable pub free_metered : ℤ → ℤ → TxFeePolicy
free_metered max_tx_chi max_block_chi = record {
  mode = free_mode;
  meter_execution = true;
  charge_fees = false;
  distribute_fee_rewards = false;
  require_chi_balance = false;
  max_tx_chi = some max_tx_chi;
  max_block_chi = some max_block_chi;
}

unfoldable pub system_unmetered : TxFeePolicy
system_unmetered = record {
  mode = system_mode;
  meter_execution = false;
  charge_fees = false;
  distribute_fee_rewards = false;
  require_chi_balance = false;
  max_tx_chi = none;
  max_block_chi = none;
}

-- `except (TypeError, ValueError)`; an `OverflowError` goes on.
abbrev pub invalid_chi : Except ℤ → Except ℤ
invalid_chi (ok n) = ok n
invalid_chi (err type_error) = err (transaction chi_invalid)
invalid_chi (err value_error) = err (transaction chi_invalid)
invalid_chi (err e) = err e

-- `int(given or 0)`, and the two refusals.
abbrev pub given_chi : Value → Except ℤ
given_chi given = do
  chi_supplied ← invalid_chi (to_int (if truth given then given else int (pos 0)))
  raise_if (ltb_ℤ chi_supplied (pos 0)) (transaction chi_invalid)
  ok chi_supplied

abbrev pub payload_chi : Value → Except ℤ
payload_chi (obj payload) = given_chi (get_field "chi_supplied" payload)
payload_chi _ = err (transaction payload_not_dict)

unfoldable pub tx_chi_supplied : Value → Except ℤ
tx_chi_supplied (obj tx) = payload_chi (get_field "payload" tx)
tx_chi_supplied _ = err (transaction payload_not_dict)

-- `chi > limit`, where there is a limit.
abbrev pub exceeds : ℤ → Option ℤ → (ℤ → Failure) → Except (Unit {0})
exceeds chi none e = ok tt
exceeds chi (some limit) e = raise_if (ltb_ℤ limit chi) (e limit)

unfoldable pub validate_tx : TxFeePolicy → Value → Except (Unit {0})
validate_tx policy tx = do
  chi_supplied ← tx_chi_supplied tx
  raise_if (policy.meter_execution && leb_ℤ chi_supplied (pos 0)) (transaction chi_not_positive)
  exceeds chi_supplied policy.max_tx_chi (λ limit. transaction (tx_chi_limit limit))

unfoldable pub validate_block_total : TxFeePolicy → ℤ → Except (Unit {0})
validate_block_total policy total =
    exceeds total policy.max_block_chi (λ limit. transaction (block_chi_limit limit))
