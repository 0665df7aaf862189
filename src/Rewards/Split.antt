-- ===== src/Rewards/Split.antt =====
-- The split of a validator's reward among it and its delegators in src/xian/rewards.py. A mapping of
-- amounts is kept beside its records.
pub mod Pool
pub mod Ledger
pub mod Conserved
use xian_abci.Prelude.{
  String, Bool, true, false, not, ◌||◌, if◌then◌else◌, ◌==◌, string_eq, Option, none, some, List,
  [], ◌∷◌, ◌++◌,
}
use xian_abci.Prelude.Dict.{Dict, lookup, insert}
use xian_abci.Prelude.Sort.{sort_by}
use xian_abci.Result.{Except, ok, err, type_error, ◌>>=◌}
use xian_abci.Value.{Value, null, str, obj, Fields, end, field, truth}
use xian_abci.Rewards.{
  Decimals, Stored, decimal, plain, Client, as_decimal, not_positive, get_validator_power,
  get_validator_reward_key, get_validator_commission_bps, get_validator_self_bond,
  get_validator_delegators, get_validator_delegation, get_delegator_reward_key,
}

-- The `type` of a record.
pub data Kind : Type 0 where
  validator_reward delegator_reward foundation_reward developer_reward : Kind

module _ (decimals : Decimals) where
  pub record RewardRecord : Type 0 where
    pub kind : Kind
    pub recipient_key : String
    pub source_contract : Option String
    pub validator_key : Option String
    pub delegator_key : Option String
    pub value : decimals.Number

  -- A `defaultdict` of amounts, and the records.
  pub record Outputs : Type 0 where
    pub mapping : Dict String decimals.Number
    pub records : List RewardRecord

  abbrev pub amount_of : Option decimals.Number → decimals.Number
  amount_of none = decimals.zero
  amount_of (some n) = n

  -- `mapping[key] += amount`
  unfoldable pub credit :
      String → decimals.Number → Dict String decimals.Number → Dict String decimals.Number
  credit key amount mapping =
      insert key (decimals.add (amount_of (lookup key mapping)) amount) mapping

  unfoldable pub give : RewardRecord → Outputs → Outputs
  give reward outputs = record {
    mapping = credit reward.recipient_key reward.value outputs.mapping;
    records = outputs.records ++ (reward ∷ []);
  }

  abbrev pub no_outputs : Outputs
  no_outputs = record { mapping = []; records = [] }

  abbrev pub operator_record : String → String → decimals.Number → RewardRecord
  operator_record validator operator_reward_key amount = record {
    kind = validator_reward;
    recipient_key = operator_reward_key;
    source_contract = none;
    validator_key = some validator;
    delegator_key = none;
    value = decimals.contracting amount;
  }

  pub record Delegation : Type 0 where
    pub delegator : String
    pub reward_key : String
    pub weight : decimals.Number

  abbrev pub delegator_record : String → Delegation → decimals.Number → RewardRecord
  delegator_record validator delegation share = record {
    kind = delegator_reward;
    recipient_key = delegation.reward_key;
    source_contract = none;
    validator_key = some validator;
    delegator_key = some delegation.delegator;
    value = decimals.contracting share;
  }

  -- What the shares of a validator's delegators are computed from.
  pub record Pot : Type 0 where
    pub total_reward : decimals.Number
    pub remainder : decimals.Number
    pub stake_base : decimals.Number

  -- The last one has what is left.
  unfoldable pub pay_delegators :
      String → Pot → List Delegation → decimals.Number → Outputs → Outputs
  pay_delegators validator pot [] allocated outputs = outputs
  pay_delegators validator pot (delegation ∷ []) allocated outputs =
      give (delegator_record validator delegation (decimals.sub pot.total_reward allocated)) outputs
  pay_delegators validator pot (delegation ∷ next ∷ delegations) allocated outputs =
      let share = decimals.div (decimals.mul pot.remainder delegation.weight) pot.stake_base in
      pay_delegators validator pot (next ∷ delegations) (decimals.add allocated share)
        (give (delegator_record validator delegation share) outputs)

  -- The operator's commission, with its part of the rest where it has a bond.
  unfoldable pub operator_total :
      decimals.Number → decimals.Number → decimals.Number → decimals.Number → decimals.Number
  operator_total commission remainder self_bond stake_base =
      if decimals.lt decimals.zero self_bond
      then decimals.add commission (decimals.div (decimals.mul remainder self_bond) stake_base)
      else commission

  abbrev pub pay_operator : String → String → decimals.Number → Outputs → Outputs
  pay_operator validator operator_reward_key total outputs =
      if decimals.lt decimals.zero total
      then give (operator_record validator operator_reward_key total) outputs
      else outputs

  abbrev pub total_delegated : List Delegation → decimals.Number → decimals.Number
  total_delegated [] total = total
  total_delegated (delegation ∷ delegations) total =
      total_delegated delegations (decimals.add total delegation.weight)

  -- The split of a reward, once the state has been read.
  unfoldable pub split_reward :
      String
      → decimals.Number
      → String
      → decimals.Number
      → decimals.Number
      → List Delegation
      → Outputs
  split_reward validator total_reward operator_reward_key commission_bps self_bond delegations =
      let stake_base = decimals.add self_bond (total_delegated delegations decimals.zero) in
      let commission =
        decimals.div (decimals.mul total_reward commission_bps) decimals.ten_thousand in
      let remainder = decimals.sub total_reward commission in
      let operator = operator_total commission remainder self_bond stake_base in
      let pot : Pot = record {
        total_reward = total_reward;
        remainder = remainder;
        stake_base = stake_base;
      } in
      if not_positive decimals stake_base
      then record {
        mapping = (operator_reward_key, decimals.contracting total_reward) ∷ [];
        records = operator_record validator operator_reward_key total_reward ∷ [];
      }
      else pay_delegators validator pot delegations operator
          (pay_operator validator operator_reward_key operator no_outputs)

  module _ (client : Client decimals) where
    abbrev pub add_delegation :
        String → String → decimals.Number → List Delegation → List Delegation
    add_delegation delegator reward_key weight delegations =
        record { delegator = delegator; reward_key = reward_key; weight = weight } ∷ delegations

    -- The delegations that are positive. The reward key of another delegator is not read.
    unfoldable pub read_delegations : String → List String → Except (List Delegation)
    read_delegations validator [] = ok []
    read_delegations validator (delegator ∷ delegators) = do
      weight ← get_validator_delegation decimals client delegator validator
      (if not_positive decimals weight then read_delegations validator delegators else (do
        reward_key ← get_delegator_reward_key decimals client delegator validator
        delegations ← read_delegations validator delegators
        ok (add_delegation delegator reward_key weight delegations)))

    unfoldable pub build_single_validator_reward_outputs : String → decimals.Number → Except Outputs
    build_single_validator_reward_outputs validator total_reward = do
      operator_reward_key ← get_validator_reward_key decimals client validator
      commission_bps ← get_validator_commission_bps decimals client validator
      self_bond ← get_validator_self_bond decimals client validator
      delegators ← get_validator_delegators decimals client validator
      delegations ← read_delegations validator delegators
      ok (
          split_reward validator total_reward operator_reward_key commission_bps self_bond
            delegations)
