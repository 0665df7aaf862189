-- ===== src/Rewards/Tests.antt =====
-- src/xian/rewards.py on whole numbers, with a validator that has a delegator.
use xian_abci.Prelude.{
  String, ◌≡◌, refl, none, some, List, [], ◌∷◌, ◌==◌, string_eq, ◌&&◌, if◌then◌else◌,
}
use xian_abci.Prelude.Int.{pos, ◌+ℤ◌, ◌-ℤ◌}
use xian_abci.Result.{ok, Holds}
use xian_abci.Value.{null, int, str, arr, nil, cons, truth}
use xian_abci.Prelude.Dict.{Dict, lookup, insert}
use xian_abci.Rewards.{
  Client, Stored, decimal, plain, as_decimal, get_validator_power, get_validator_reward_key,
  get_validator_commission_bps, get_validator_self_bond, get_validator_delegators,
  get_validator_delegation, get_delegator_reward_key,
}
use xian_abci.Rewards.Split.{
  RewardRecord, validator_reward, delegator_reward, credit, give, pay_delegators, operator_total,
  split_reward, read_delegations, build_single_validator_reward_outputs,
}
use xian_abci.Rewards.Split.Pool.{
  merge_outputs, pay_validators, weigh_validators, build_validator_set_reward_outputs,
}
use xian_abci.Rewards.Outputs.{Configuration, OutputRewards, calculate_tx_output_rewards}
use xian_abci.Rewards.Outputs.Report.{
  accumulate, add_foundation, add_validator_record, add_developer, assemble,
}
use xian_abci.Rewards.Outputs.Report.Deltas.{IsBalanced, assemble-IsBalanced}
use xian_abci.Rewards.Outputs.Conserved.{Distributed, calculate_rewards-Distributed}
use xian_abci.Rewards.Split.Ledger.{balance, IsLedger}
use xian_abci.Rewards.Split.Ledger.Set.{validator_outputs-IsLedger}
use xian_abci.Rewards.Whole.{decimals, additive, laws}

-- A validator with a bond of 70, a commission of 10 % and a delegator with 30; one of the two
-- contracts that were called has a developer.
abbrev get_var : String → String → List String → Stored decimals
get_var contract variable arguments =
    if variable == "active_validators"
    then plain (arr (cons (str "val") nil))
    else if variable == "delegator_lists"
    then plain (arr (cons (str "del") nil))
    else if variable == "delegations"
    then decimal (pos 30)
    else if variable == "self_bond"
    then decimal (pos 70)
    else if variable == "commission_bps"
    then plain (int (pos 1000))
    else if (variable == "__developer__") && (contract == "con_b")
    then plain (str "dev")
    else plain null

abbrev client : Client decimals
client = record { get_var = get_var }

abbrev configuration : Configuration decimals
configuration = record { client = client; reward_split = [] }

abbrev costs : Dict String (Stored decimals)
costs = ("con_b", decimal (pos 2)) ∷ ("con_a", decimal (pos 1)) ∷ []

read_ten : as_decimal decimals (decimal (pos 10)) ≡ ok (pos 10)
unfolding as_decimal
read_ten = refl

read_five : as_decimal decimals (decimal (pos 5)) ≡ ok (pos 5)
unfolding as_decimal
read_five = refl

-- A reward of 1000: 100 are the commission, and 900 are split as 70 to 30.
splits :
    build_validator_set_reward_outputs decimals client
      (pos 100)
      (decimal (pos 10))
      ("val" ∷ [])
      (pos 0)
    ≡ ok (record {
      mapping = ("val", pos 730) ∷ ("del", pos 270) ∷ [];
      records =
          record {
            kind = validator_reward;
            recipient_key = "val";
            source_contract = none;
            validator_key = some "val";
            delegator_key = none;
            value = pos 730;
          }
          ∷ record {
            kind = delegator_reward;
            recipient_key = "del";
            source_contract = none;
            validator_key = some "val";
            delegator_key = some "del";
            value = pos 270;
          }
          ∷ [];
    })
unfolding build_validator_set_reward_outputs as_decimal weigh_validators get_validator_power
    pay_validators build_single_validator_reward_outputs get_validator_reward_key
    get_validator_commission_bps get_validator_self_bond get_validator_delegators read_delegations
    get_validator_delegation get_delegator_reward_key split_reward operator_total pay_delegators
    give credit merge_outputs lookup insert truth ◌+ℤ◌ ◌-ℤ◌
splits = refl

calculate_rewards-Distributed_example : Holds (Distributed decimals laws (pos 1500)) (
    calculate_tx_output_rewards decimals configuration
      (pos 100)
      "con_b"
      costs
      (decimal (pos 10) ∷ decimal (pos 0) ∷ decimal (pos 0) ∷ decimal (pos 5) ∷ []))
unfolding ◌+ℤ◌
calculate_rewards-Distributed_example =
    calculate_rewards-Distributed decimals laws configuration (pos 100) "con_b" costs
      (decimal (pos 10)) (decimal (pos 0)) (decimal (pos 0)) (decimal (pos 5)) (pos 10) (pos 5)
      "val" [] read_ten read_five refl refl refl

validator_outputs-IsLedger_example : Holds (IsLedger decimals "del") (
    build_validator_set_reward_outputs decimals client
      (pos 100)
      (decimal (pos 10))
      ("val" ∷ "val2" ∷ [])
      (pos 7))
validator_outputs-IsLedger_example =
    validator_outputs-IsLedger decimals additive client "del" (pos 100) (decimal (pos 10))
      ("val" ∷ "val2" ∷ []) (pos 7)

abbrev del_record : RewardRecord decimals
del_record = record {
  kind = delegator_reward;
  recipient_key = "del";
  source_contract = none;
  validator_key = some "val";
  delegator_key = some "del";
  value = pos 270;
}

-- The delegator is a developer as well.
abbrev outputs : OutputRewards decimals
outputs = record {
  validators = record { mapping = ("del", pos 270) ∷ []; records = del_record ∷ [] };
  foundation = pos 40;
  developers = record { mapping = ("del", pos 100) ∷ []; records = [] };
}

assembled :
    balance decimals "currency.balances:del" (assemble decimals (pos 10) "own" outputs).deltas
    ≡ pos 30
unfolding assemble add_foundation add_validator_record add_developer credit accumulate lookup insert
    ◌+ℤ◌
assembled = refl

assemble-IsBalanced_example :
    IsBalanced decimals additive "del" (assemble decimals (pos 10) "own" outputs)
assemble-IsBalanced_example = assemble-IsBalanced decimals additive "del" (pos 10) "own" outputs
