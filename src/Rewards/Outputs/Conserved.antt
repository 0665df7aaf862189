-- ===== src/Rewards/Outputs/Conserved.antt =====
-- The split of a transaction's fee in src/xian/rewards.py comes to the shares of the validators and
-- the developers together.
use mathlib.Core.Path.{subst}
use xian_abci.Prelude.{◌++◌, String, ◌≡◌, ◌∙◌, ap, Option, none, some, List, [], ◌∷◌}
use xian_abci.Prelude.Dict.{Dict}
use xian_abci.Result.{ok, Holds, Holds->>=}
use xian_abci.Rewards.{Decimals, Stored, as_decimal, texts_of}
use xian_abci.Rewards.Split.Pool.{build_validator_set_reward_outputs, find_developer_and_reward}
use xian_abci.Rewards.Split.Conserved.{IsLe, RoundsDown, Pays, Pays-append, sum_positive}
use xian_abci.Rewards.Split.Conserved.Set.{Pays-validator_set}
use xian_abci.Rewards.Split.Conserved.Developers.{developers-IsSettled}
use xian_abci.Rewards.Outputs.{
  Configuration, OutputRewards, calculate_with, calculate_tx_output_rewards,
}

module _ (decimals : Decimals) (laws : RoundsDown decimals) where
  -- The validators get their share and what is redirected from the developers.
  regroup :
      (a b redirected rest : decimals.Number)
      → decimals.add rest redirected ≡ b
      → decimals.add (decimals.add a redirected) rest ≡ decimals.add a b
  regroup a b redirected rest h =
      laws.additive.add_assoc a redirected rest
      ∙ ap (decimals.add a) (laws.additive.add_comm redirected rest ∙ h)

  -- Five values, with these shares in all.
  abbrev pub Distributed : decimals.Number → Option (OutputRewards decimals) → Type 0
  Distributed total none = ⊥
  Distributed total (some outputs) =
      Pays decimals laws (outputs.validators.records ++ outputs.developers.records) total

  -- Where sums and differences of decimals are exact, portions are rounded down and a recorded
  -- amount is rounded down by at most `dust`, there is an active validator, the ratios can be read
  -- and the shares of the validators and of the developers are not negative: if the split of a
  -- transaction's fee by four ratios returns, then the records of the validators, of their
  -- delegators and of the developers come to no more than those two shares together, and to no less
  -- but for a `dust` for each record.
  pub calculate_rewards-Distributed :
      (configuration : Configuration decimals) (total_chi_to_split : decimals.Number)
      (contract : String) (contract_costs : Dict String (Stored decimals))
      (validator_ratio burn_ratio foundation_ratio developer_ratio : Stored decimals)
      (for_validators for_developers : decimals.Number) (validator : String)
      (validators : List String)
      → as_decimal decimals validator_ratio ≡ ok for_validators
      → as_decimal decimals developer_ratio ≡ ok for_developers
      → texts_of decimals (configuration.client.get_var "validators" "active_validators" [])
        ≡ ok (validator ∷ validators)
      → IsLe decimals decimals.zero (decimals.mul total_chi_to_split for_validators)
      → IsLe decimals decimals.zero (decimals.mul total_chi_to_split for_developers)
      → Holds
          (Distributed (
            decimals.add
              (decimals.mul total_chi_to_split for_validators)
              (decimals.mul total_chi_to_split for_developers)))
          (calculate_tx_output_rewards decimals configuration total_chi_to_split contract
            contract_costs
            (validator_ratio ∷ burn_ratio ∷ foundation_ratio ∷ developer_ratio ∷ []))
  unfolding calculate_tx_output_rewards
  calculate_rewards-Distributed configuration total contract costs vr br fr dr v d name names read_v
        read_d active positive_v positive_d =
      let client = configuration.client in
      let outcome =
        Holds->>=
          (λ outputs.
            Distributed (decimals.add (decimals.mul total v) (decimals.mul total d)) (some outputs))
          (find_developer_and_reward decimals client total contract dr costs) _
          (developers-IsSettled decimals laws client total contract dr d costs read_d positive_d)
          (λ developers settled. rw active (
            Holds->>= _
              (build_validator_set_reward_outputs decimals client total vr (name ∷ names)
                developers.redirected)
              _
              (Pays-validator_set decimals laws client total vr v name names developers.redirected
                read_v
                (sum_positive decimals laws (decimals.mul total v) developers.redirected positive_v
                  settled.redirected_positive))
              (λ outputs pays_all.
                subst (Pays decimals laws (outputs.records ++ developers.outputs.records))
                  (regroup (decimals.mul total v) (decimals.mul total d) developers.redirected
                    settled.credited settled.sum)
                  (Pays-append decimals laws outputs.records developers.outputs.records _
                    settled.credited pays_all settled.pays)))) in
      Holds->>= _ (calculate_with decimals configuration total contract costs vr fr dr) _ outcome
        (λ outputs h. h)
