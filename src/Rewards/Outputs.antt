-- ===== src/Rewards/Outputs.antt =====
-- The split of a transaction's fee: `calculate_tx_output_rewards` of src/xian/rewards.py, without
-- logging.
pub mod Conserved
pub mod Report
use Prim.Native.String.{◌++◌ as text_append}
use xian_abci.Prelude.{
  String, Bool, true, false, not, ◌&&◌, ◌||◌, if◌then◌else◌, ◌==◌, string_eq, Option, none, some,
  List, [], ◌∷◌, ◌++◌,
}
use xian_abci.Prelude.Dict.{Dict, lookup, insert}
use xian_abci.Result.{Except, ok, err, value_error, type_error, ◌>>=◌}
use xian_abci.Value.{Value, null, str, obj, truth}
use xian_abci.Rewards.{Decimals, Stored, decimal, plain, Client, as_decimal, texts_of, not_positive}
use xian_abci.Rewards.Split.{
  Kind, validator_reward, delegator_reward, foundation_reward, developer_reward, RewardRecord,
  Outputs, credit,
}
use xian_abci.Rewards.Split.Pool.{
  Developers, build_validator_set_reward_outputs, find_developer_and_reward,
}

module _ (decimals : Decimals) where
  -- The reads of `rewards.S:value`, as the list that it holds (`None` has no items), and of the
  -- other variables.
  pub record Configuration : Type 0 where
    pub client : Client decimals
    pub reward_split : List (Stored decimals)

  abbrev rounded : decimals.Number → decimals.Number → Except decimals.Number → decimals.Number
  rounded divisor total_chi_to_split (err e) = decimals.zero
  rounded divisor total_chi_to_split (ok ratio) =
      decimals.round (decimals.mul (decimals.div ratio divisor) total_chi_to_split)

  -- What raises counts as no reward.
  unfoldable pub calculate_participant_reward :
      Stored decimals → decimals.Number → decimals.Number → decimals.Number
  calculate_participant_reward participant_ratio number_of_participants total_chi_to_split =
      decimals.contracting (
        rounded
          (if decimals.is_zero number_of_participants then decimals.one else number_of_participants)
          total_chi_to_split (as_decimal decimals participant_ratio))

  pub record OutputRewards : Type 0 where
    pub validators : Outputs decimals
    pub foundation : decimals.Number
    pub developers : Outputs decimals

  abbrev pub calculate_with :
      Configuration
      → decimals.Number
      → String
      → Dict String (Stored decimals)
      → Stored decimals
      → Stored decimals
      → Stored decimals
      → Except OutputRewards
  calculate_with configuration total_chi_to_split contract contract_costs validator_ratio
        foundation_ratio developer_ratio =
      do
        let client = configuration.client
        developers ←
            find_developer_and_reward decimals client total_chi_to_split contract developer_ratio
              contract_costs
        validators ← texts_of decimals (client.get_var "validators" "active_validators" [])
        outputs ←
            build_validator_set_reward_outputs decimals client total_chi_to_split validator_ratio
              validators developers.redirected
        ok (record {
          validators = outputs;
          foundation =
              calculate_participant_reward foundation_ratio decimals.one total_chi_to_split;
          developers = developers.outputs;
        })

  -- Without a split the result is a tuple of four, which no caller can unpack: `none`. A split of
  -- another length than four is a `ValueError`.
  unfoldable pub calculate_tx_output_rewards :
      Configuration
      → decimals.Number
      → String
      → Dict String (Stored decimals)
      → List (Stored decimals)
      → Except (Option OutputRewards)
  calculate_tx_output_rewards configuration total_chi_to_split contract contract_costs [] = ok none
  calculate_tx_output_rewards configuration total_chi_to_split contract contract_costs
        (validator_ratio ∷ burn_ratio ∷ foundation_ratio ∷ developer_ratio ∷ []) =
      do
        outputs ←
            calculate_with configuration total_chi_to_split contract contract_costs validator_ratio
              foundation_ratio developer_ratio
        ok (some outputs)
  calculate_tx_output_rewards configuration total_chi_to_split contract contract_costs _ =
      err value_error

  abbrev pub unpacked : Option OutputRewards → Except OutputRewards
  unpacked none = err value_error
  unpacked (some outputs) = ok outputs
