-- ===== src/Rewards/Split/Ledger/Set.antt =====
-- The mapping of the whole validator set in src/xian/rewards.py, which is merged from those of the
-- validators.
use xian_abci.Prelude.{
  String, ◌≡◌, refl, ◌∙◌, ap, ◌==◌, string_eq, arith, List, [], ◌∷◌, ◌++◌, Bool-cases, inl, inr,
}
use xian_abci.Prelude.Dict.{Dict, lookup, IsNodup, IsNodup-insert}
use xian_abci.Result.{Holds, Holds->>=, Holds-any}
use xian_abci.Rewards.{
  Decimals, Client, Stored, as_decimal, get_validator_reward_key, get_validator_commission_bps,
  get_validator_self_bond, get_validator_delegators,
}
use xian_abci.Rewards.Split.{
  RewardRecord, Outputs, credit, no_outputs, read_delegations,
  build_single_validator_reward_outputs,
}
use xian_abci.Rewards.Split.Pool.{
  credit_all, merge_outputs, pay_validators, weigh_validators, build_validator_set_reward_outputs,
}
use xian_abci.Rewards.Split.Ledger.{
  Additive, tally, balance, balance-credit, IsLedger, IsLedger-none, IsLedger-split_reward,
}

module _ (decimals : Decimals) (laws : Additive decimals) where
  -- What is credited from a mapping is added to the balance.
  balance-credit_all :
      (client : Client decimals) (key : String) (amounts mapping : Dict String decimals.Number)
      → IsNodup amounts
      → balance decimals key (credit_all decimals client amounts mapping)
        ≡ decimals.add (balance decimals key mapping) (balance decimals key amounts)
  unfolding lookup
  balance-credit_all client key [] mapping h = ground (
    arith,
    laws.zero_add (balance decimals key mapping),
    laws.add_comm (balance decimals key mapping) decimals.zero,
  )
  balance-credit_all client key ((j, amount) ∷ amounts) mapping h = ground (
    arith,
    string_eq.same_iff j key,
    balance-credit decimals key j amount mapping,
    balance-credit_all client key amounts (credit decimals j amount mapping) h.1,
    laws.zero_add (decimals.add (balance decimals key mapping) amount),
    laws.add_comm (decimals.add (balance decimals key mapping) amount) decimals.zero,
  )

  tally-from :
      (key : String) (rs : List (RewardRecord decimals)) (a b : decimals.Number)
      → tally decimals key rs (decimals.add a b) ≡ decimals.add a (tally decimals key rs b)
  tally-from key [] a b = refl
  tally-from key (r ∷ rs) a b = elim (Bool-cases (r.recipient_key == key)) [
    | inl e ↦ rw e (
        ap (tally decimals key rs) (laws.add_assoc a b r.value)
        ∙ tally-from key rs a (decimals.add b r.value))
    | inr e ↦ rw e (tally-from key rs a b)
  ]

  tally-concat :
      (key : String) (rs ss : List (RewardRecord decimals)) (total : decimals.Number)
      → tally decimals key (rs ++ ss) total ≡ tally decimals key ss (tally decimals key rs total)
  tally-concat key [] ss total = refl
  tally-concat key (r ∷ rs) ss total = tally-concat key rs ss _

  IsNodup-credit_all :
      (client : Client decimals) (amounts mapping : Dict String decimals.Number)
      → IsNodup mapping
      → IsNodup (credit_all decimals client amounts mapping)
  unfolding credit
  IsNodup-credit_all client [] mapping h = h
  IsNodup-credit_all client ((j, amount) ∷ amounts) mapping h =
      IsNodup-credit_all client amounts _ (IsNodup-insert j _ mapping h)

  IsLedger-merge :
      (client : Client decimals) (key : String) (share outputs : Outputs decimals)
      → IsLedger decimals key share
      → IsLedger decimals key outputs
      → IsLedger decimals key (merge_outputs decimals client share outputs)
  unfolding merge_outputs
  IsLedger-merge client key share outputs h k = record {
    once = IsNodup-credit_all client share.mapping outputs.mapping k.once;
    balanced = cc (
      balance-credit_all client key share.mapping outputs.mapping h.once,
      h.balanced,
      k.balanced,
      tally-concat key outputs.records share.records decimals.zero,
      tally-from key share.records (tally decimals key outputs.records decimals.zero) decimals.zero,
      laws.zero_add (tally decimals key outputs.records decimals.zero),
      laws.add_comm (tally decimals key outputs.records decimals.zero) decimals.zero,
    );
  }

  IsLedger-single :
      (client : Client decimals) (key validator : String) (total : decimals.Number)
      → Holds
          (IsLedger decimals key)
          (build_single_validator_reward_outputs decimals client validator total)
  unfolding build_single_validator_reward_outputs
  IsLedger-single client key validator total =
      Holds->>= _ (get_validator_reward_key decimals client validator) _ (Holds-any _)
        (λ operator_key _.
          Holds->>= _ (get_validator_commission_bps decimals client validator) _ (Holds-any _)
            (λ bps _.
              Holds->>= _ (get_validator_self_bond decimals client validator) _ (Holds-any _)
                (λ bond _.
                  Holds->>= _ (get_validator_delegators decimals client validator) _ (Holds-any _)
                    (λ delegators _.
                      Holds->>= _ (read_delegations decimals client validator delegators) _
                        (Holds-any _)
                        (λ delegations _.
                          IsLedger-split_reward decimals laws key validator total operator_key bps
                            bond delegations)))))

  IsLedger-pay_validators :
      (client : Client decimals) (key : String) (total weight : decimals.Number)
      (nodes : List (String × decimals.Number)) (allocated : decimals.Number)
      (outputs : Outputs decimals)
      → IsLedger decimals key outputs
      → Holds
          (IsLedger decimals key)
          (pay_validators decimals client total weight nodes allocated outputs)
  unfolding pay_validators
  IsLedger-pay_validators client key total weight [] allocated outputs h = h
  IsLedger-pay_validators client key total weight ((v, w) ∷ []) allocated outputs h =
      Holds->>= _
        (build_single_validator_reward_outputs decimals client v (decimals.sub total allocated)) _
        (IsLedger-single client key v (decimals.sub total allocated))
        (λ share s. IsLedger-merge client key share outputs s h)
  IsLedger-pay_validators client key total weight ((v, w) ∷ n ∷ ns) allocated outputs h =
      let amount = decimals.div (decimals.mul total w) weight in
      Holds->>= _ (build_single_validator_reward_outputs decimals client v amount) _
        (IsLedger-single client key v amount)
        (λ share s.
          IsLedger-pay_validators client key total weight (n ∷ ns) (decimals.add allocated amount)
            (merge_outputs decimals client share outputs)
            (IsLedger-merge client key share outputs s h))

  -- Where addition does not round and the validators' outputs are built, each recipient has one
  -- entry in their mapping, and the amount at any key is the sum of the values of the records
  -- for that recipient, over all validators and their delegators.
  pub validator_outputs-IsLedger :
      (client : Client decimals) (key : String) (total_chi_to_split : decimals.Number)
      (participant_ratio : Stored decimals) (validators : List String)
      (additional_chi_to_split : decimals.Number)
      → Holds (IsLedger decimals key) (
          build_validator_set_reward_outputs decimals client total_chi_to_split participant_ratio
            validators additional_chi_to_split)
  unfolding build_validator_set_reward_outputs
  validator_outputs-IsLedger client key total_chi_to_split participant_ratio validators additional =
      Holds->>= _ (as_decimal decimals participant_ratio) _ (Holds-any _) (λ ratio _.
        Holds->>= _ (weigh_validators decimals client validators) _ (Holds-any _) (λ nodes _.
          IsLedger-pay_validators client key _ _ nodes decimals.zero (no_outputs decimals)
            (IsLedger-none decimals key)))
