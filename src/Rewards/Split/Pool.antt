-- ===== src/Rewards/Split/Pool.antt =====
-- The share of the validator set and that of the developers in src/xian/rewards.py.
use xian_abci.Prelude.{
  String, ◌||◌, if◌then◌else◌, ◌==◌, string_eq, Option, none, some, List, [], ◌∷◌, ◌++◌,
}
use xian_abci.Prelude.Dict.{Dict}
use xian_abci.Prelude.Sort.{sort_by}
use xian_abci.Result.{Except, ok, err, type_error, ◌>>=◌}
use xian_abci.Value.{str, truth}
use xian_abci.Rewards.{Decimals, Stored, decimal, plain, Client, as_decimal, get_validator_power}
use xian_abci.Rewards.Split.{
  RewardRecord, Outputs, credit, give, no_outputs, build_single_validator_reward_outputs,
  developer_reward,
}

module _ (decimals : Decimals) (client : Client decimals) where
  abbrev pub credit_all :
      Dict String decimals.Number → Dict String decimals.Number → Dict String decimals.Number
  credit_all [] mapping = mapping
  credit_all ((key, amount) ∷ amounts) mapping =
      credit_all amounts (credit decimals key amount mapping)

  -- The outputs of a validator, added to those before it.
  unfoldable pub merge_outputs : Outputs decimals → Outputs decimals → Outputs decimals
  merge_outputs share outputs = record {
    mapping = credit_all share.mapping outputs.mapping;
    records = outputs.records ++ share.records;
  }

  unfoldable pub pay_validators :
      decimals.Number
      → decimals.Number
      → List (String × decimals.Number)
      → decimals.Number
      → Outputs decimals
      → Except (Outputs decimals)
  pay_validators validator_total total_weight [] allocated outputs = ok outputs
  pay_validators validator_total total_weight ((validator, weight) ∷ []) allocated outputs = do
    share ←
        build_single_validator_reward_outputs decimals client validator
          (decimals.sub validator_total allocated)
    ok (merge_outputs share outputs)
  pay_validators validator_total total_weight ((validator, weight) ∷ next ∷ nodes) allocated
        outputs =
      let amount = decimals.div (decimals.mul validator_total weight) total_weight in
      do
        share ← build_single_validator_reward_outputs decimals client validator amount
        pay_validators validator_total total_weight (next ∷ nodes) (decimals.add allocated amount)
            (merge_outputs share outputs)

  unfoldable pub weigh_validators : List String → Except (List (String × decimals.Number))
  weigh_validators [] = ok []
  weigh_validators (validator ∷ validators) = do
    weight ← get_validator_power decimals client validator
    nodes ← weigh_validators validators
    ok ((validator, weight) ∷ nodes)

  abbrev pub weight_sum : List (String × decimals.Number) → decimals.Number → decimals.Number
  weight_sum [] total = total
  weight_sum ((name, weight) ∷ nodes) total = weight_sum nodes (decimals.add total weight)

  unfoldable pub build_validator_set_reward_outputs :
      decimals.Number → Stored decimals → List String → decimals.Number → Except (Outputs decimals)
  build_validator_set_reward_outputs total_chi_to_split participant_ratio validators
        additional_chi_to_split =
      do
        ratio ← as_decimal decimals participant_ratio
        nodes ← weigh_validators validators
        pay_validators
            (decimals.add (decimals.mul total_chi_to_split ratio) additional_chi_to_split)
            (weight_sum nodes decimals.zero) nodes decimals.zero (no_outputs decimals)

  -- The developers' outputs, and what goes to the validators in place of them.
  pub record Developers : Type 0 where
    pub outputs : Outputs decimals
    pub redirected : decimals.Number

  abbrev pub developer_record : String → String → decimals.Number → RewardRecord decimals
  developer_record source_contract recipient share = record {
    kind = developer_reward;
    recipient_key = recipient;
    source_contract = some source_contract;
    validator_key = none;
    delegator_key = none;
    value = decimals.contracting share;
  }

  -- No developer, or the system.
  abbrev pub recipient_of : Stored decimals → Except (Option String)
  recipient_of (plain (str s)) = ok (if (s == "") || (s == "sys") then none else some s)
  recipient_of (plain v) = if truth v then err type_error else ok none
  recipient_of (decimal d) = if decimals.is_zero d then ok none else err type_error

  unfoldable pub pay_developer : String → decimals.Number → Option String → Developers → Developers
  pay_developer source_contract share none paid = record paid {
    redirected = decimals.add paid.redirected share;
  }
  pay_developer source_contract share (some recipient) paid = record paid {
    outputs = give decimals (developer_record source_contract recipient share) paid.outputs;
  }

  unfoldable pub pay_developers :
      decimals.Number
      → decimals.Number
      → List (String × decimals.Number)
      → decimals.Number
      → Developers
      → Except Developers
  pay_developers developer_total total_weight [] allocated paid = ok paid
  pay_developers developer_total total_weight ((source_contract, weight) ∷ []) allocated paid = do
    recipient ← recipient_of (client.get_var source_contract "__developer__" [])
    ok (pay_developer source_contract (decimals.sub developer_total allocated) recipient paid)
  pay_developers developer_total total_weight ((source_contract, weight) ∷ next ∷ weights) allocated
        paid =
      let share = decimals.div (decimals.mul developer_total weight) total_weight in
      do
        recipient ← recipient_of (client.get_var source_contract "__developer__" [])
        pay_developers developer_total total_weight (next ∷ weights) (decimals.add allocated share)
            (pay_developer source_contract share recipient paid)

  -- The positive costs, in the order in which they stand.
  unfoldable pub positive_weights :
      List (String × Stored decimals) → Except (List (String × decimals.Number))
  positive_weights [] = ok []
  positive_weights ((source_contract, cost) ∷ costs) = do
    weight ← as_decimal decimals cost
    weights ← positive_weights costs
    ok (if decimals.lt decimals.zero weight then (source_contract, weight) ∷ weights else weights)

  -- The contract that was called, where no cost counts.
  abbrev pub or_contract :
      String → List (String × decimals.Number) → List (String × decimals.Number)
  or_contract contract [] = (contract, decimals.one) ∷ []
  or_contract contract (node ∷ nodes) = node ∷ nodes

  -- The costs are a dict, with no items for `None`.
  unfoldable pub find_developer_and_reward :
      decimals.Number → String → Stored decimals → Dict String (Stored decimals) → Except Developers
  find_developer_and_reward total_chi_to_split contract developer_ratio contract_costs = do
    ratio ← as_decimal decimals developer_ratio
    weights ← positive_weights (sort_by (λ item. item.0) contract_costs)
    let nodes = or_contract contract weights
    pay_developers (decimals.mul total_chi_to_split ratio) (weight_sum nodes decimals.zero) nodes
        decimals.zero (record { outputs = no_outputs decimals; redirected = decimals.zero })
