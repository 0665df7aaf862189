-- ===== src/Rewards/Split/Conserved/Single.antt =====
-- One validator's reward of src/xian/rewards.py, from the reads of the state to its records.
use mathlib.Core.Path.{subst}
use xian_abci.Prelude.{sym, String, ◌≡◌, refl, ◌∙◌, List, [], ◌∷◌, Bool-cases, inl, inr}
use xian_abci.Result.{Holds, Holds->>=, Holds-any}
use xian_abci.Value.{null, bool, int, float, str, arr, obj}
use xian_abci.Rewards.{
  Decimals, Client, Stored, decimal, plain, as_decimal, decimal_or, clamp_bps, at_least_zero,
  one_unless_positive, get_validator_power, get_validator_reward_key, get_validator_commission_bps,
  get_validator_self_bond, get_validator_delegators,
}
use xian_abci.Rewards.Split.{
  Delegation, no_outputs, pay_delegators, pay_operator, operator_total, split_reward,
  read_delegations, build_single_validator_reward_outputs, total_delegated,
}
use xian_abci.Rewards.Split.Conserved.{
  IsLe, IsLt, RoundsDown, portion, Pays, Pays-one, add_zero, Pays-pay_delegators, Pays-pay_operator,
  operator_total-le, operator_total-whole,
}

module _ (decimals : Decimals) where
  decimal_or-Holds :
      (P : decimals.Number → Type 0) (default : decimals.Number)
      (clamp : decimals.Number → decimals.Number) (v : Stored decimals)
      → P default
      → ((n : decimals.Number) → P (clamp n))
      → Holds P (decimal_or decimals default clamp v)
  decimal_or-Holds P default clamp (plain null) p h = p
  decimal_or-Holds P default clamp (decimal d) p h =
      Holds->>= P (as_decimal decimals (decimal d)) _ (Holds-any _) (λ n _. h n)
  decimal_or-Holds P default clamp (plain (bool b)) p h =
      Holds->>= P (as_decimal decimals (plain (bool b))) _ (Holds-any _) (λ n _. h n)
  decimal_or-Holds P default clamp (plain (int i)) p h =
      Holds->>= P (as_decimal decimals (plain (int i))) _ (Holds-any _) (λ n _. h n)
  decimal_or-Holds P default clamp (plain (float x)) p h =
      Holds->>= P (as_decimal decimals (plain (float x))) _ (Holds-any _) (λ n _. h n)
  decimal_or-Holds P default clamp (plain (str s)) p h =
      Holds->>= P (as_decimal decimals (plain (str s))) _ (Holds-any _) (λ n _. h n)
  decimal_or-Holds P default clamp (plain (arr vs)) p h =
      Holds->>= P (as_decimal decimals (plain (arr vs))) _ (Holds-any _) (λ n _. h n)
  decimal_or-Holds P default clamp (plain (obj fs)) p h =
      Holds->>= P (as_decimal decimals (plain (obj fs))) _ (Holds-any _) (λ n _. h n)

  module _ (laws : RoundsDown decimals) where
    -- What the readings of the state keep to.
    abbrev IsBps : decimals.Number → Type 0
    IsBps bps = IsLe decimals decimals.zero bps × IsLe decimals bps decimals.ten_thousand

    clamp_bps-IsBps : (n : decimals.Number) → IsBps (clamp_bps decimals n)
    clamp_bps-IsBps n =
        let positive = laws.lt_le decimals.zero decimals.ten_thousand laws.ten_thousand_positive in
        elim (Bool-cases (decimals.lt n decimals.zero)) [
          | inl e ↦ rw e (laws.le_self decimals.zero, positive)
          | inr e ↦ rw e (elim (Bool-cases (decimals.lt decimals.ten_thousand n)) [
            | inl f ↦ rw f (positive, laws.le_self decimals.ten_thousand)
            | inr f ↦ rw f (e, f)
          ])
        ]

    at_least_zero-IsLe :
        (n : decimals.Number) → IsLe decimals decimals.zero (at_least_zero decimals n)
    at_least_zero-IsLe n = elim (Bool-cases (decimals.lt n decimals.zero)) [
      | inl e ↦ rw e (laws.le_self decimals.zero)
      | inr e ↦ rw e e
    ]

    pub power-IsLt :
        (client : Client decimals) (validator : String)
        → Holds (IsLt decimals decimals.zero) (get_validator_power decimals client validator)
    unfolding get_validator_power
    power-IsLt client validator =
        decimal_or-Holds (IsLt decimals decimals.zero) decimals.one (one_unless_positive decimals)
          (client.get_var "validators" "powers" (validator ∷ [])) laws.one_positive
          (λ n. elim (Bool-cases (decimals.lt decimals.zero n)) [
            | inl e ↦ rw e e
            | inr e ↦ rw e laws.one_positive
          ])

    commission-Holds :
        (client : Client decimals) (validator : String)
        → Holds IsBps (get_validator_commission_bps decimals client validator)
    unfolding get_validator_commission_bps
    commission-Holds client validator =
        decimal_or-Holds IsBps decimals.zero (clamp_bps decimals)
          (client.get_var "validators" "commission_bps" (validator ∷ []))
          (
            laws.le_self decimals.zero,
            laws.lt_le decimals.zero decimals.ten_thousand laws.ten_thousand_positive,
          )
          clamp_bps-IsBps

    bond-Holds :
        (client : Client decimals) (validator : String)
        → Holds (IsLe decimals decimals.zero) (get_validator_self_bond decimals client validator)
    unfolding get_validator_self_bond
    bond-Holds client validator =
        decimal_or-Holds (IsLe decimals decimals.zero) decimals.zero (at_least_zero decimals)
          (client.get_var "validators" "self_bond" (validator ∷ [])) (laws.le_self decimals.zero)
          at_least_zero-IsLe

    -- With a positive base, the records of the operator and the delegators pay the total.
    Pays-with_base :
        (validator operator_key : String) (total commission bond base : decimals.Number)
        (delegations : List (Delegation decimals))
        → IsLe decimals decimals.zero commission
        → IsLe decimals decimals.zero (decimals.sub total commission)
        → IsLe decimals decimals.zero total
        → IsLt decimals decimals.zero base
        → base ≡ decimals.add bond (total_delegated decimals delegations decimals.zero)
        → Pays decimals laws
            (pay_delegators decimals validator
              (record {
                total_reward = total;
                remainder = decimals.sub total commission;
                stake_base = base;
              })
              delegations
              (operator_total decimals commission (decimals.sub total commission) bond base)
              (pay_operator decimals validator operator_key
                (operator_total decimals commission (decimals.sub total commission) bond base)
                (no_outputs decimals))).records
            total
    unfolding pay_delegators
    Pays-with_base validator operator_key total commission bond base [] c r t b same =
        subst
          (λ n.
            Pays decimals laws
              (pay_operator decimals validator operator_key n (no_outputs decimals)).records total)
          (sym (
            operator_total-whole decimals laws total commission bond base r b
              (same ∙ add_zero decimals laws bond)))
          (Pays-pay_operator decimals laws validator operator_key total t)
    Pays-with_base validator operator_key total commission bond base (d ∷ ds) c r t b same =
        Pays-pay_delegators decimals laws validator _ d ds _ _ (
          Pays-pay_operator decimals laws validator operator_key _ (
            operator_total-le decimals laws commission (decimals.sub total commission) bond base c r
              b))

    Pays-split_reward :
        (validator operator_key : String) (total bps bond : decimals.Number)
        (delegations : List (Delegation decimals))
        → IsLe decimals decimals.zero total
        → IsBps bps
        → Pays decimals laws
            (split_reward decimals validator total operator_key bps bond delegations).records
            total
    unfolding split_reward
    Pays-split_reward validator operator_key total bps bond delegations t (low, high) =
        let base = decimals.add bond (total_delegated decimals delegations decimals.zero) in
        let commission = portion decimals total bps decimals.ten_thousand in
        elim (Bool-cases (decimals.lt decimals.zero base)) [
          | inl e ↦ rw e (
              Pays-with_base validator operator_key total commission bond base delegations
                (laws.le-portion total bps decimals.ten_thousand t low laws.ten_thousand_positive)
                (laws.le-sub commission total (
                  laws.portion-le total bps decimals.ten_thousand t low high
                    laws.ten_thousand_positive))
                t e refl)
          | inr e ↦ rw e (Pays-one decimals laws _ total refl)
        ]

    -- The records of a validator and its delegators pay the reward that is split, if it is not
    -- negative.
    pub Pays-single :
        (client : Client decimals) (validator : String) (total_reward : decimals.Number)
        → IsLe decimals decimals.zero total_reward
        → Holds
            (λ outputs. Pays decimals laws outputs.records total_reward)
            (build_single_validator_reward_outputs decimals client validator total_reward)
    unfolding build_single_validator_reward_outputs
    Pays-single client validator total_reward t =
        Holds->>= _ (get_validator_reward_key decimals client validator) _ (Holds-any _)
          (λ operator_key _.
            Holds->>= _ (get_validator_commission_bps decimals client validator) _
              (commission-Holds client validator)
              (λ bps range.
                Holds->>= _ (get_validator_self_bond decimals client validator) _
                  (bond-Holds client validator)
                  (λ bond _.
                    Holds->>= _ (get_validator_delegators decimals client validator) _ (Holds-any _)
                      (λ delegators _.
                        Holds->>= _ (read_delegations decimals client validator delegators) _
                          (Holds-any _)
                          (λ delegations _.
                            Pays-split_reward validator operator_key total_reward bps bond
                              delegations t range)))))
