-- ===== src/Rewards/Outputs/Report.antt =====
-- The rewards of a transaction: `build_tx_reward_outputs` of src/xian/rewards.py, without logging.
pub mod Deltas
use Prim.Native.String.{◌++◌ as text_append}
use xian_abci.Prelude.{
  String, Bool, true, false, not, ◌&&◌, ◌||◌, if◌then◌else◌, ◌==◌, string_eq, Option, none, some,
  List, [], ◌∷◌, ◌++◌,
}
use xian_abci.Prelude.Dict.{Dict, lookup, insert}
use xian_abci.Result.{Except, ok, err, value_error, type_error, ◌>>=◌}
use xian_abci.Value.{Value, null, str, obj, truth}
use xian_abci.Rewards.{Decimals, Stored, decimal, plain, Client, as_decimal, texts_of, not_positive}
use xian_abci.Rewards.Split.{
  Kind, validator_reward, delegator_reward, foundation_reward, developer_reward, RewardRecord,
  Outputs, credit,
}
use xian_abci.Rewards.Split.Pool.{
  Developers, build_validator_set_reward_outputs, find_developer_and_reward,
}
use xian_abci.Rewards.Outputs.{
  Configuration, calculate_participant_reward, OutputRewards, calculate_with,
  calculate_tx_output_rewards, unpacked,
}

module _ (decimals : Decimals) where
  -- The amounts of a transaction by kind, the changes of balances, and the records.
  pub record TxRewards : Type 0 where
    pub validator : Dict String decimals.Number
    pub delegator : Dict String decimals.Number
    pub foundation : Dict String decimals.Number
    pub developer : Dict String decimals.Number
    pub deltas : Dict String decimals.Number
    pub records : List (RewardRecord decimals)

  abbrev pub no_rewards : TxRewards
  no_rewards = record {
    validator = [];
    delegator = [];
    foundation = [];
    developer = [];
    deltas = [];
    records = [];
  }

  abbrev pub balance_key : String → String
  balance_key recipient_key = text_append "currency.balances:" recipient_key

  abbrev pub plus : Option decimals.Number → decimals.Number → decimals.Number
  plus none amount = amount
  plus (some existing_amount) amount = decimals.add existing_amount amount

  -- A new key has the amount itself.
  unfoldable pub accumulate :
      String → decimals.Number → Dict String decimals.Number → Dict String decimals.Number
  accumulate key amount bucket = insert key (plus (lookup key bucket) amount) bucket

  -- `ContractingDecimal(str(x / chi_rate))`
  abbrev pub in_tau : decimals.Number → decimals.Number → decimals.Number
  in_tau chi_rate amount = decimals.contracting (decimals.div amount chi_rate)

  abbrev pub is_delegator : Kind → Bool
  is_delegator delegator_reward = true
  is_delegator _ = false

  unfoldable pub add_foundation : decimals.Number → String → decimals.Number → TxRewards → TxRewards
  add_foundation chi_rate foundation_owner reward rewards =
      let amount = in_tau chi_rate reward in
      if decimals.is_zero reward then rewards else record rewards {
        foundation = insert foundation_owner amount rewards.foundation;
        deltas = credit decimals (balance_key foundation_owner) amount rewards.deltas;
        records =
            rewards.records
            ++ (record {
              kind = foundation_reward;
              recipient_key = foundation_owner;
              source_contract = none;
              validator_key = none;
              delegator_key = none;
              value = amount;
            }
                ∷ []);
      }

  unfoldable pub add_validator_record :
      decimals.Number → RewardRecord decimals → TxRewards → TxRewards
  add_validator_record chi_rate reward rewards =
      let amount = in_tau chi_rate reward.value in
      let key = reward.recipient_key in
      record rewards {
        validator =
            if is_delegator reward.kind
            then rewards.validator
            else accumulate key amount rewards.validator;
        delegator =
            if is_delegator reward.kind
            then accumulate key amount rewards.delegator
            else rewards.delegator;
        deltas = credit decimals (balance_key key) amount rewards.deltas;
        records =
            rewards.records ++ (record reward { source_contract = none; value = amount } ∷ []);
      }

  abbrev pub add_validator_records :
      decimals.Number → List (RewardRecord decimals) → TxRewards → TxRewards
  add_validator_records chi_rate [] rewards = rewards
  add_validator_records chi_rate (reward ∷ records) rewards =
      add_validator_records chi_rate records (add_validator_record chi_rate reward rewards)

  unfoldable pub add_developer : decimals.Number → String → decimals.Number → TxRewards → TxRewards
  add_developer chi_rate developer reward rewards =
      let amount = in_tau chi_rate reward in
      record rewards {
        developer = accumulate developer amount rewards.developer;
        deltas = credit decimals (balance_key developer) amount rewards.deltas;
      }

  abbrev pub add_developers : decimals.Number → Dict String decimals.Number → TxRewards → TxRewards
  add_developers chi_rate [] rewards = rewards
  add_developers chi_rate ((developer, reward) ∷ mapping) rewards =
      add_developers chi_rate mapping (add_developer chi_rate developer reward rewards)

  abbrev pub add_developer_records :
      decimals.Number → List (RewardRecord decimals) → TxRewards → TxRewards
  add_developer_records chi_rate [] rewards = rewards
  add_developer_records chi_rate (reward ∷ records) rewards =
      add_developer_records chi_rate records (record rewards {
        records = rewards.records ++ (record reward { value = in_tau chi_rate reward.value } ∷ []);
      })

  unfoldable pub assemble : decimals.Number → String → OutputRewards decimals → TxRewards
  assemble chi_rate foundation_owner outputs =
      add_developer_records chi_rate outputs.developers.records (
        add_developers chi_rate outputs.developers.mapping (
          add_validator_records chi_rate outputs.validators.records
            (add_foundation chi_rate foundation_owner outputs.foundation no_rewards)))

  -- `None`, or not 0.
  abbrev pub rate_of : Stored decimals → Except (Option decimals.Number)
  rate_of (decimal d) = ok (if decimals.is_zero d then none else some d)
  rate_of (plain null) = ok none
  rate_of (plain (obj fs)) = err type_error
  rate_of (plain v) = do
    rate ← decimals.of_value v
    ok (if decimals.is_zero rate then none else some rate)

  abbrev pub owner_of : Stored decimals → Except (Option String)
  owner_of (plain null) = ok none
  owner_of (plain (str s)) = ok (some s)
  owner_of _ = err type_error

  abbrev pub is_empty : Dict String decimals.Number → Bool
  is_empty [] = true
  is_empty (item ∷ items) = false

  -- The rewards with `None` where every bucket is empty, the deltas, and the records.
  pub data Report : Type 0 where
    nothing : List (RewardRecord decimals) → Report
    rewarded : TxRewards → Report

  unfoldable pub reported : TxRewards → Report
  reported rewards =
      if is_empty rewards.validator
        && is_empty rewards.delegator
        && is_empty rewards.foundation
        && is_empty rewards.developer
      then nothing rewards.records
      else rewarded rewards

  abbrev pub build_with :
      Configuration decimals
      → decimals.Number
      → String
      → Dict String (Stored decimals)
      → Option decimals.Number
      → Option String
      → Except Report
  build_with configuration total_chi_to_split contract contract_costs (some chi_rate)
        (some foundation_owner) =
      do
        calculated ←
            calculate_tx_output_rewards decimals configuration total_chi_to_split contract
              contract_costs configuration.reward_split
        outputs ← unpacked decimals calculated
        ok (reported (assemble chi_rate foundation_owner outputs))
  build_with configuration total_chi_to_split contract contract_costs _ _ = ok (nothing [])

  abbrev pub has_split : List (Stored decimals) → Bool
  has_split [] = false
  has_split (ratio ∷ ratios) = true

  unfoldable pub build_tx_reward_outputs :
      Configuration decimals
      → decimals.Number
      → String
      → Dict String (Stored decimals)
      → Except Report
  build_tx_reward_outputs configuration total_chi_to_split contract contract_costs =
      if not (has_split configuration.reward_split) || not_positive decimals total_chi_to_split
      then ok (nothing [])
      else (do
        chi_rate ← rate_of (configuration.client.get_var "chi_cost" "S" ("value" ∷ []))
        foundation_owner ← owner_of (configuration.client.get_var "foundation" "owner" [])
        build_with configuration total_chi_to_split contract contract_costs chi_rate
            foundation_owner)
