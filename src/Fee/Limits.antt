-- ===== src/Fee/Limits.antt =====
-- What a policy lets pass.
use xian_abci.Prelude.{Bool, true, false, inl, inr, refl, ◌&&◌, ◌≡◌, ◌↔◌, arith, Option, none, some}
use mathlib.Core.Path.{subst}
use xian_abci.Prelude.Int.{ℤ, pos, ◌≤ℤ◌, ◌<ℤ◌, leb_ℤ}
use xian_abci.Result.{
  Except, ok, err, Except-cases, raise_if, transaction, chi_not_positive, tx_chi_limit, ◌>>◌,
  >>=-eq-ok, raise_if-ok, ok_injective,
}
use xian_abci.Value.{Value, Fields, to_int}
use xian_abci.Fee.{
  Mode, paid_mode, free_mode, system_mode, TxFeePolicy, paid_metered, free_metered, tx_chi_supplied,
  validate_tx, exceeds,
}
use xian_abci.Fee.Config.{
  from_runtime_config, policy_of_mode, positive_int, invalid_int, normalize_tx_fee_mode,
}

-- The amount keeps the limit, where there is one.
abbrev pub Within : ℤ → Option ℤ → Type 0
Within n none = Unit
Within n (some limit) = n ≤ℤ limit

-- The amount is positive where execution is metered.
abbrev pub Budgeted : Bool → ℤ → Type 0
Budgeted true n = pos 0 <ℤ n
Budgeted false n = Unit

-- The two tests, once the amount is read.
tests_iff :
    (metered : Bool) (limit : Option ℤ) (n : ℤ)
    → ((raise_if (metered && leb_ℤ n (pos 0)) (transaction chi_not_positive)
          >> exceeds n limit (λ m. transaction (tx_chi_limit m)))
        ≡ ok tt)
      ↔ (Budgeted metered n × Within n limit)
tests_iff true none n = ground arith
tests_iff true (some m) n = ground arith
tests_iff false none n = ground arith
tests_iff false (some m) n = ground arith

-- The verdict that a policy owes to a transaction, by the amount of chi that is read off it.
abbrev pub Verdict : TxFeePolicy → Except ℤ → Except (Unit {0}) → Type 0
Verdict policy (ok n) result =
    (result ≡ ok tt) ↔ (Budgeted policy.meter_execution n × Within n policy.max_tx_chi)
Verdict policy (err e) result = result ≡ err e

-- A transaction whose chi can be read passes exactly when the amount is positive, if the policy
-- meters execution, and keeps the limit, if the policy has one. One whose chi cannot be read is
-- refused with the failure of the reading.
pub validate_tx-Verdict :
    (policy : TxFeePolicy) (tx : Value)
    → Verdict policy (tx_chi_supplied tx) (validate_tx policy tx)
unfolding validate_tx
validate_tx-Verdict policy tx = elim (Except-cases (tx_chi_supplied tx)) [
  | inl (e, unread) ↦ rw unread refl
  | inr (n, read) ↦ rw read (tests_iff policy.meter_execution policy.max_tx_chi n)
]

-- A configured policy, field by field: either fees are charged and shared out, a balance is asked
-- for and there is no limit, or none of this and both limits are positive. Execution is metered
-- either way.
pub data Configured : TxFeePolicy → Type 0 where
  paid : Configured (record {
    mode = paid_mode;
    meter_execution = true;
    charge_fees = true;
    distribute_fee_rewards = true;
    require_chi_balance = true;
    max_tx_chi = none;
    max_block_chi = none;
  })
  free :
      (tx_limit block_limit : ℤ)
      → pos 0 <ℤ tx_limit
      → pos 0 <ℤ block_limit
      → Configured (record {
        mode = free_mode;
        meter_execution = true;
        charge_fees = false;
        distribute_fee_rewards = false;
        require_chi_balance = false;
        max_tx_chi = some tx_limit;
        max_block_chi = some block_limit;
      })

positive_int-pos : (v : Value) (n : ℤ) → positive_int v ≡ ok n → pos 0 <ℤ n
unfolding positive_int
positive_int-pos v n h =
    let a = >>=-eq-ok (invalid_int (to_int v)) _ h in
    let b = >>=-eq-ok (raise_if (leb_ℤ a.0 (pos 0)) _) _ a.2 in
    let ge : leb_ℤ a.0 (pos 0) ≡ false = raise_if-ok _ _ b.1 in
    let lt : pos 0 <ℤ a.0 = ground arith in rw (ok_injective b.2) at lt

free_Configured :
    (config : Fields) (mode : Mode) (policy : TxFeePolicy)
    → policy_of_mode config free_mode ≡ ok policy
    → Configured policy
unfolding policy_of_mode paid_metered free_metered
free_Configured config mode policy h =
    let a = >>=-eq-ok (positive_int _) _ h in
    let b = >>=-eq-ok (positive_int _) _ a.2 in
    subst Configured (ok_injective b.2)
      (free a.0 b.0 (positive_int-pos _ _ a.1) (positive_int-pos _ _ b.1))

policy_of_mode-Configured :
    (config : Fields) (mode : Mode) (policy : TxFeePolicy)
    → policy_of_mode config mode ≡ ok policy
    → Configured policy
unfolding policy_of_mode paid_metered free_metered
policy_of_mode-Configured config paid_mode policy h = subst Configured (ok_injective h) paid
policy_of_mode-Configured config free_mode policy h = free_Configured config free_mode policy h
policy_of_mode-Configured config system_mode policy h = free_Configured config free_mode policy h

-- Every policy that the runtime configuration gives meters execution, and is one of two: the paid
-- mode, in which fees are charged and shared out, a balance is asked for and there is no limit, or
-- the free mode, in which nothing is charged or shared out, no balance is asked for, and both
-- limits are positive.
pub from_runtime_config-Configured :
    (config : Fields) (policy : TxFeePolicy)
    → from_runtime_config config ≡ ok policy
    → Configured policy
unfolding from_runtime_config
from_runtime_config-Configured config policy h =
    let a = >>=-eq-ok (normalize_tx_fee_mode _) _ h in
    policy_of_mode-Configured config a.0 policy a.2
