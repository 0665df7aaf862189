-- ===== src/Rewards/Split/Conserved/Set.antt =====
-- The share of the whole validator set, and that of the developers, of src/xian/rewards.py.
use mathlib.Core.Path.{subst}
use xian_abci.Prelude.{String, ◌≡◌, refl, List, [], ◌∷◌, All}
use xian_abci.Result.{ok, Holds, Holds->>=}
use xian_abci.Rewards.{Decimals, Client, Stored, as_decimal, get_validator_power}
use xian_abci.Rewards.Split.{Outputs, no_outputs, build_single_validator_reward_outputs}
use xian_abci.Rewards.Split.Pool.{
  merge_outputs, pay_validators, weigh_validators, weight_sum, build_validator_set_reward_outputs,
}
use xian_abci.Rewards.Split.Conserved.{
  IsLe, IsLt, RoundsDown, portion, Pays, Pays-append, Pays-none, le-add_left, sum_positive,
}
use xian_abci.Rewards.Split.Conserved.Single.{Pays-single, power-IsLt}

module _ (decimals : Decimals) (laws : RoundsDown decimals) where
  Pays-merge :
      (client : Client decimals) (share outputs : Outputs decimals) (a b : decimals.Number)
      → Pays decimals laws outputs.records a
      → Pays decimals laws share.records b
      → Pays decimals laws (merge_outputs decimals client share outputs).records (decimals.add a b)
  unfolding merge_outputs
  Pays-merge client share outputs a b h k =
      Pays-append decimals laws outputs.records share.records a b h k

  abbrev Node : Type 0
  Node = String × decimals.Number

  abbrev pub Weighs : List Node → Type 0
  Weighs = All (λ node. IsLt decimals decimals.zero node.1)

  -- The sum of positive weights is positive, and at least what it starts from.
  pub weight_sum-le :
      (client : Client decimals) (nodes : List Node) (start : decimals.Number)
      → Weighs nodes
      → IsLe decimals start (weight_sum decimals client nodes start)
  weight_sum-le client [] start h = laws.le_self start
  weight_sum-le client ((name, w) ∷ nodes) start h =
      laws.le_trans start (decimals.add start w) _
        (subst (λ n. IsLe decimals start n) (laws.additive.add_comm w start)
          (le-add_left decimals laws w start (laws.lt_le decimals.zero w h.0)))
        (weight_sum-le client nodes (decimals.add start w) h.1)

  pub weight_sum-IsLt :
      (client : Client decimals) (node : Node) (nodes : List Node)
      → Weighs (node ∷ nodes)
      → IsLt decimals decimals.zero (weight_sum decimals client (node ∷ nodes) decimals.zero)
  weight_sum-IsLt client (name, w) nodes h = laws.lt_trans decimals.zero w _ h.0 (
      subst (λ n. IsLe decimals n (weight_sum decimals client nodes (decimals.add decimals.zero w)))
        (laws.additive.zero_add w) (weight_sum-le client nodes (decimals.add decimals.zero w) h.1))

  -- What has been allocated so far is no more than the portion of the weights so far.
  pub record IsSoFar (total weight before allocated : decimals.Number) : Type 0 where
    pub total_positive : IsLe decimals decimals.zero total
    pub weight_positive : IsLt decimals decimals.zero weight
    pub before_positive : IsLe decimals decimals.zero before
    pub allocated_le : IsLe decimals allocated (portion decimals total before weight)

  pub IsSoFar-step :
      (total weight before allocated w : decimals.Number)
      → IsLt decimals decimals.zero w
      → IsSoFar total weight before allocated
      → IsSoFar total weight
          (decimals.add before w)
          (decimals.add allocated (portion decimals total w weight))
  IsSoFar-step total weight before allocated w h s =
      let w_positive = laws.lt_le decimals.zero w h in
      record {
        total_positive = s.total_positive;
        weight_positive = s.weight_positive;
        before_positive = sum_positive decimals laws before w s.before_positive w_positive;
        allocated_le =
            laws.le_trans _ _ _
              (laws.le-add allocated (portion decimals total before weight)
                (portion decimals total w weight) s.allocated_le)
              (laws.portions-le total before w weight s.total_positive s.before_positive w_positive
                s.weight_positive);
      }

  -- What is left for the last one is not negative.
  pub IsSoFar-rest :
      (total weight before allocated : decimals.Number)
      → IsLe decimals before weight
      → IsSoFar total weight before allocated
      → IsLe decimals decimals.zero (decimals.sub total allocated)
  IsSoFar-rest total weight before allocated h s = laws.le-sub allocated total (
      laws.le_trans allocated _ total s.allocated_le (
        laws.portion-le total before weight s.total_positive s.before_positive h s.weight_positive))

  Pays-pay_validators :
      (client : Client decimals) (total weight : decimals.Number) (node : Node) (nodes : List Node)
      (before allocated : decimals.Number) (outputs : Outputs decimals)
      → Weighs (node ∷ nodes)
      → weight_sum decimals client (node ∷ nodes) before ≡ weight
      → IsSoFar total weight before allocated
      → Pays decimals laws outputs.records allocated
      → Holds
          (λ out. Pays decimals laws out.records total)
          (pay_validators decimals client total weight (node ∷ nodes) allocated outputs)
  unfolding pay_validators
  Pays-pay_validators client total weight (v, w) [] before allocated outputs h e s p =
      Holds->>= _
        (build_single_validator_reward_outputs decimals client v (decimals.sub total allocated)) _
        (Pays-single decimals laws client v (decimals.sub total allocated) (
          IsSoFar-rest total weight before allocated
            (subst (λ n. IsLe decimals before n) e (weight_sum-le client ((v, w) ∷ []) before h))
            s))
        (λ share q.
          subst (Pays decimals laws (merge_outputs decimals client share outputs).records)
            (laws.add-sub allocated total)
            (Pays-merge client share outputs allocated (decimals.sub total allocated) p q))
  Pays-pay_validators client total weight (v, w) (n ∷ ns) before allocated outputs h e s p =
      let amount = portion decimals total w weight in
      Holds->>= _ (build_single_validator_reward_outputs decimals client v amount) _
        (Pays-single decimals laws client v amount (
          laws.le-portion total w weight s.total_positive (laws.lt_le decimals.zero w h.0)
            s.weight_positive))
        (λ share q.
          Pays-pay_validators client total weight n ns (decimals.add before w)
            (decimals.add allocated amount) (merge_outputs decimals client share outputs) h.1 e
            (IsSoFar-step total weight before allocated w h.0 s)
            (Pays-merge client share outputs allocated amount p q))

  -- Nothing is allocated at the start.
  pub IsSoFar-start :
      (total weight : decimals.Number)
      → IsLe decimals decimals.zero total
      → IsLt decimals decimals.zero weight
      → IsSoFar total weight decimals.zero decimals.zero
  IsSoFar-start total weight t w = record {
    total_positive = t;
    weight_positive = w;
    before_positive = laws.le_self decimals.zero;
    allocated_le = laws.le-portion total decimals.zero weight t (laws.le_self decimals.zero) w;
  }

  weigh_validators-Holds :
      (client : Client decimals) (validators : List String)
      → Holds Weighs (weigh_validators decimals client validators)
  unfolding weigh_validators
  weigh_validators-Holds client [] = tt
  weigh_validators-Holds client (v ∷ vs) =
      Holds->>= _ (get_validator_power decimals client v) _ (power-IsLt decimals laws client v)
        (λ w positive.
          Holds->>= _ (weigh_validators decimals client vs) _ (weigh_validators-Holds client vs)
            (λ nodes weighs. (positive, weighs)))

  abbrev IsFilled : List Node → Type 0
  IsFilled [] = ⊥
  IsFilled (node ∷ nodes) = Unit

  IsFilled-weigh_validators :
      (client : Client decimals) (v : String) (vs : List String)
      → Holds (λ nodes. Weighs nodes × IsFilled nodes) (weigh_validators decimals client (v ∷ vs))
  unfolding weigh_validators
  IsFilled-weigh_validators client v vs =
      Holds->>= _ (get_validator_power decimals client v) _ (power-IsLt decimals laws client v)
        (λ w positive.
          Holds->>= _ (weigh_validators decimals client vs) _ (weigh_validators-Holds client vs)
            (λ nodes weighs. ((positive, weighs), tt)))

  Pays-from_start :
      (client : Client decimals) (total : decimals.Number) (nodes : List Node)
      → IsLe decimals decimals.zero total
      → Weighs nodes × IsFilled nodes
      → Holds
          (λ out. Pays decimals laws out.records total)
          (pay_validators decimals client total
            (weight_sum decimals client nodes decimals.zero)
            nodes
            decimals.zero
            (no_outputs decimals))
  Pays-from_start client total [] t (h, filled) = absurd filled
  Pays-from_start client total (node ∷ nodes) t (h, filled) =
      Pays-pay_validators client total _ node nodes decimals.zero decimals.zero
        (no_outputs decimals) h refl (IsSoFar-start total _ t (weight_sum-IsLt client node nodes h))
        (Pays-none decimals laws)

  -- Where there is a validator: the records of the validators and their delegators pay the share of
  -- the set with what is redirected to it, if that is not negative.
  pub Pays-validator_set :
      (client : Client decimals) (total_chi_to_split : decimals.Number)
      (participant_ratio : Stored decimals) (ratio : decimals.Number) (validator : String)
      (validators : List String) (additional_chi_to_split : decimals.Number)
      → as_decimal decimals participant_ratio ≡ ok ratio
      → IsLe decimals decimals.zero
          (decimals.add (decimals.mul total_chi_to_split ratio) additional_chi_to_split)
      → Holds
          (λ out.
            Pays decimals laws out.records
              (decimals.add (decimals.mul total_chi_to_split ratio) additional_chi_to_split))
          (build_validator_set_reward_outputs decimals client total_chi_to_split participant_ratio
            (validator ∷ validators)
            additional_chi_to_split)
  unfolding build_validator_set_reward_outputs
  Pays-validator_set client total ratio_stored ratio v vs additional read t = rw read (
      Holds->>= _ (weigh_validators decimals client (v ∷ vs)) _
        (IsFilled-weigh_validators client v vs)
        (λ nodes h.
          Pays-from_start client (decimals.add (decimals.mul total ratio) additional) nodes t h))
