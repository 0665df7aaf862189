-- ===== src/Rewards/Split/Ledger.antt =====
-- The mapping that src/xian/rewards.py keeps of a split's amounts, against its records.
pub mod Set
use mathlib.Core.Path.{subst}
use xian_abci.Prelude.{
  String, ◌≡◌, refl, sym, ◌∙◌, ap, Bool, true, false, not, if◌then◌else◌, ◌==◌, string_eq, beq_refl,
  arith, Option, none, some, List, [], ◌∷◌, ◌++◌, Bool-cases, inl, inr,
}
use xian_abci.Prelude.Dict.{Dict, lookup, insert, contains, IsNodup, lookup-insert, IsNodup-insert}
use xian_abci.Result.{Except, ok, err, Holds, Holds->>=, Holds-any, ◌>>=◌}
use xian_abci.Rewards.{
  Decimals, Client, Stored, as_decimal, not_positive, get_validator_reward_key,
  get_validator_commission_bps, get_validator_self_bond, get_validator_delegators,
}
use xian_abci.Rewards.Split.{
  RewardRecord, Outputs, amount_of, credit, give, no_outputs, operator_record, Delegation,
  delegator_record, Pot, pay_delegators, pay_operator, operator_total, split_reward,
  read_delegations, build_single_validator_reward_outputs, total_delegated,
}
use xian_abci.Rewards.Split.Pool.{
  credit_all, merge_outputs, pay_validators, weigh_validators, weight_sum,
  build_validator_set_reward_outputs,
}

-- Addition without rounding.
pub record Additive (decimals : Decimals) : Type 0 where
  pub add_assoc :
      (a b c : decimals.Number)
      → decimals.add (decimals.add a b) c ≡ decimals.add a (decimals.add b c)
  pub add_comm : (a b : decimals.Number) → decimals.add a b ≡ decimals.add b a
  pub zero_add : (a : decimals.Number) → decimals.add decimals.zero a ≡ a

module _ (decimals : Decimals) where
  -- The values of the records for one recipient, one after another.
  abbrev pub tally : String → List (RewardRecord decimals) → decimals.Number → decimals.Number
  tally key [] total = total
  tally key (reward ∷ records) total =
      tally key records
        (if reward.recipient_key == key then decimals.add total reward.value else total)

  -- The amount at a key, 0 where there is none.
  abbrev pub balance : String → Dict String decimals.Number → decimals.Number
  balance key mapping = amount_of decimals (lookup key mapping)

  pub tally-append :
      (key : String) (rs : List (RewardRecord decimals)) (r : RewardRecord decimals)
      (total : decimals.Number)
      → tally key (rs ++ (r ∷ [])) total ≡ (
          if r.recipient_key == key
          then decimals.add (tally key rs total) r.value
          else tally key rs total)
  tally-append key [] r total = refl
  tally-append key (x ∷ rs) r total = tally-append key rs r _

  pub balance-credit :
      (key j : String) (amount : decimals.Number) (mapping : Dict String decimals.Number)
      → balance key (credit decimals j amount mapping)
        ≡ (if j == key then decimals.add (balance key mapping) amount else balance key mapping)
  unfolding credit
  balance-credit key j amount mapping = ground (
    arith,
    string_eq.same_iff j key,
    lookup-insert j key (decimals.add (balance j mapping) amount) mapping,
  )

  -- Each recipient stands once, with the sum of its records.
  pub record IsLedger (key : String) (outputs : Outputs decimals) : Type 0 where
    pub once : IsNodup outputs.mapping
    pub balanced : balance key outputs.mapping ≡ tally key outputs.records decimals.zero

  IsLedger-give :
      (key : String) (reward : RewardRecord decimals) (outputs : Outputs decimals)
      → IsLedger key outputs
      → IsLedger key (give decimals reward outputs)
  unfolding give credit
  IsLedger-give key reward outputs h = record {
    once = IsNodup-insert reward.recipient_key _ outputs.mapping h.once;
    balanced =
        balance-credit key reward.recipient_key reward.value outputs.mapping
        ∙ ap (λ n. if reward.recipient_key == key then decimals.add n reward.value else n)
            h.balanced
        ∙ sym (tally-append key outputs.records reward decimals.zero);
  }

  IsLedger-pay_delegators :
      (key validator : String) (pot : Pot decimals) (delegations : List (Delegation decimals))
      (allocated : decimals.Number) (outputs : Outputs decimals)
      → IsLedger key outputs
      → IsLedger key (pay_delegators decimals validator pot delegations allocated outputs)
  unfolding pay_delegators
  IsLedger-pay_delegators key validator pot [] allocated outputs h = h
  IsLedger-pay_delegators key validator pot (d ∷ []) allocated outputs h =
      IsLedger-give key _ outputs h
  IsLedger-pay_delegators key validator pot (d ∷ e ∷ ds) allocated outputs h =
      IsLedger-pay_delegators key validator pot (e ∷ ds) _ _ (IsLedger-give key _ outputs h)

  pub IsLedger-none : (key : String) → IsLedger key (no_outputs decimals)
  unfolding lookup
  IsLedger-none key = record { once = tt; balanced = refl }

  IsLedger-pay_operator :
      (key validator operator_key : String) (total : decimals.Number)
      → IsLedger key (pay_operator decimals validator operator_key total (no_outputs decimals))
  IsLedger-pay_operator key validator operator_key total =
      elim (Bool-cases (decimals.lt decimals.zero total)) [
        | inl e ↦ rw e (IsLedger-give key _ (no_outputs decimals) (IsLedger-none key))
        | inr e ↦ rw e (IsLedger-none key)
      ]

  module _ (laws : Additive decimals) where
    pub IsLedger-split_reward :
        (key validator : String) (total : decimals.Number) (operator_key : String)
        (bps bond : decimals.Number) (delegations : List (Delegation decimals))
        → IsLedger key (split_reward decimals validator total operator_key bps bond delegations)
    unfolding split_reward lookup
    IsLedger-split_reward key validator total operator_key bps bond delegations =
        let base = decimals.add bond (total_delegated decimals delegations decimals.zero) in
        elim (Bool-cases (not_positive decimals base)) [
          | inl e ↦ rw e (record {
            once = (refl, tt);
            balanced = ground (arith, laws.zero_add (decimals.contracting total));
          })
          | inr e ↦ rw e (
              IsLedger-pay_delegators key validator _ delegations _ _
                (IsLedger-pay_operator key validator operator_key _))
        ]
