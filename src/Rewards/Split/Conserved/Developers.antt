-- ===== src/Rewards/Split/Conserved/Developers.antt =====
-- The share of the developers of src/xian/rewards.py, with what is redirected to the validators.
use mathlib.Core.Path.{subst}
use xian_abci.Prelude.{
  String, ◌≡◌, refl, sym, ◌∙◌, ap, Option, none, some, List, [], ◌∷◌, Bool-cases, inl, inr,
}
use xian_abci.Prelude.Dict.{Dict}
use xian_abci.Prelude.Sort.{sort_by}
use xian_abci.Result.{ok, Holds, Holds->>=, Holds-any}
use xian_abci.Rewards.{Decimals, Client, Stored, as_decimal}
use xian_abci.Rewards.Split.{no_outputs}
use xian_abci.Rewards.Split.Pool.{
  weight_sum, Developers, recipient_of, pay_developer, pay_developers, positive_weights,
  or_contract, find_developer_and_reward,
}
use xian_abci.Rewards.Split.Conserved.{
  IsLe, RoundsDown, portion, Pays, Pays-give, Pays-none, sum_positive,
}
use xian_abci.Rewards.Split.Conserved.Set.{
  Weighs, weight_sum-le, weight_sum-IsLt, IsSoFar, IsSoFar-step, IsSoFar-rest, IsSoFar-start,
}

module _ (decimals : Decimals) (laws : RoundsDown decimals) (client : Client decimals) where
  abbrev Node : Type 0
  Node = String × decimals.Number

  -- What has been allocated is paid or redirected, which is not negative.
  pub record IsSettled (allocated : decimals.Number) (settled : Developers decimals client)
      : Type 0 where
    pub credited : decimals.Number
    pub pays : Pays decimals laws settled.outputs.records credited
    pub sum : decimals.add credited settled.redirected ≡ allocated
    pub redirected_positive : IsLe decimals decimals.zero settled.redirected

  swap_right :
      (a b c : decimals.Number)
      → decimals.add (decimals.add a b) c ≡ decimals.add (decimals.add a c) b
  swap_right a b c =
      cc (laws.additive.add_assoc a b c, laws.additive.add_assoc a c b, laws.additive.add_comm b c)

  IsSettled-pay_developer :
      (source_contract : String) (share : decimals.Number) (recipient : Option String)
      (allocated : decimals.Number) (settled : Developers decimals client)
      → IsLe decimals decimals.zero share
      → IsSettled allocated settled
      → IsSettled
          (decimals.add allocated share)
          (pay_developer decimals client source_contract share recipient settled)
  unfolding pay_developer
  IsSettled-pay_developer source_contract share none allocated settled p h = record {
    credited = h.credited;
    pays = h.pays;
    sum =
        sym (laws.additive.add_assoc h.credited settled.redirected share)
        ∙ ap (λ n. decimals.add n share) h.sum;
    redirected_positive =
        sum_positive decimals laws settled.redirected share h.redirected_positive p;
  }
  IsSettled-pay_developer source_contract share (some recipient) allocated settled p h = record {
    credited = decimals.add h.credited share;
    pays = Pays-give decimals laws _ settled.outputs h.credited share refl h.pays;
    sum = swap_right h.credited share settled.redirected ∙ ap (λ n. decimals.add n share) h.sum;
    redirected_positive = h.redirected_positive;
  }

  IsSettled-pay_developers :
      (total weight : decimals.Number) (node : Node) (nodes : List Node)
      (before allocated : decimals.Number) (settled : Developers decimals client)
      → Weighs decimals laws (node ∷ nodes)
      → weight_sum decimals client (node ∷ nodes) before ≡ weight
      → IsSoFar decimals laws total weight before allocated
      → IsSettled allocated settled
      → Holds
          (IsSettled total)
          (pay_developers decimals client total weight (node ∷ nodes) allocated settled)
  unfolding pay_developers
  IsSettled-pay_developers total weight (name, w) [] before allocated settled h e s p =
      Holds->>= _ (recipient_of decimals client (client.get_var name "__developer__" [])) _
        (Holds-any _)
        (λ recipient _.
          subst
            (λ n.
              IsSettled n (
                pay_developer decimals client name (decimals.sub total allocated) recipient
                  settled))
            (laws.add-sub allocated total)
            (IsSettled-pay_developer name (decimals.sub total allocated) recipient allocated settled
              (IsSoFar-rest decimals laws total weight before allocated
                (subst (λ n. IsLe decimals before n) e
                  (weight_sum-le decimals laws client ((name, w) ∷ []) before h))
                s)
              p))
  IsSettled-pay_developers total weight (name, w) (n ∷ ns) before allocated settled h e s p =
      let share = portion decimals total w weight in
      Holds->>= _ (recipient_of decimals client (client.get_var name "__developer__" [])) _
        (Holds-any _)
        (λ recipient _.
          IsSettled-pay_developers total weight n ns (decimals.add before w)
            (decimals.add allocated share)
            (pay_developer decimals client name share recipient settled) h.1 e
            (IsSoFar-step decimals laws total weight before allocated w h.0 s)
            (IsSettled-pay_developer name share recipient allocated settled
              (laws.le-portion total w weight s.total_positive (laws.lt_le decimals.zero w h.0)
                s.weight_positive)
              p))

  positive_weights-Holds :
      (costs : List (String × Stored decimals))
      → Holds (Weighs decimals laws) (positive_weights decimals client costs)
  unfolding positive_weights
  positive_weights-Holds [] = tt
  positive_weights-Holds ((name, cost) ∷ costs) =
      Holds->>= _ (as_decimal decimals cost) _ (Holds-any _) (λ w _.
        Holds->>= _ (positive_weights decimals client costs) _ (positive_weights-Holds costs)
          (λ nodes h. elim (Bool-cases (decimals.lt decimals.zero w)) [
            | inl e ↦ rw e (e, h)
            | inr e ↦ rw e h
          ]))

  settle_nodes :
      (total : decimals.Number) (node : Node) (nodes : List Node)
      → IsLe decimals decimals.zero total
      → Weighs decimals laws (node ∷ nodes)
      → Holds (IsSettled total) (
          pay_developers decimals client total
            (weight_sum decimals client (node ∷ nodes) decimals.zero)
            (node ∷ nodes)
            decimals.zero
            (record { outputs = no_outputs decimals; redirected = decimals.zero }))
  settle_nodes total node nodes t h =
      IsSettled-pay_developers total _ node nodes decimals.zero decimals.zero _ h refl
        (IsSoFar-start decimals laws total _ t (weight_sum-IsLt decimals laws client node nodes h))
        (record {
          credited = decimals.zero;
          pays = Pays-none decimals laws;
          sum = laws.additive.zero_add decimals.zero;
          redirected_positive = laws.le_self decimals.zero;
        })

  IsSettled-start :
      (total : decimals.Number) (contract : String) (nodes : List Node)
      → IsLe decimals decimals.zero total
      → Weighs decimals laws nodes
      → Holds (IsSettled total) (
          pay_developers decimals client total
            (weight_sum decimals client (or_contract decimals client contract nodes) decimals.zero)
            (or_contract decimals client contract nodes)
            decimals.zero
            (record { outputs = no_outputs decimals; redirected = decimals.zero }))
  IsSettled-start total contract [] t h =
      settle_nodes total (contract, decimals.one) [] t (laws.one_positive, tt)
  IsSettled-start total contract (node ∷ nodes) t h = settle_nodes total node nodes t h

  -- The records of the developers pay the share of the developers but for what is redirected to the
  -- validators, if the share is not negative; and nor is what is redirected.
  pub developers-IsSettled :
      (total_chi_to_split : decimals.Number) (contract : String) (developer_ratio : Stored decimals)
      (ratio : decimals.Number) (contract_costs : Dict String (Stored decimals))
      → as_decimal decimals developer_ratio ≡ ok ratio
      → IsLe decimals decimals.zero (decimals.mul total_chi_to_split ratio)
      → Holds (IsSettled (decimals.mul total_chi_to_split ratio)) (
          find_developer_and_reward decimals client total_chi_to_split contract developer_ratio
            contract_costs)
  unfolding find_developer_and_reward
  developers-IsSettled total contract ratio_stored ratio costs read t = rw read (
      Holds->>= _ (positive_weights decimals client (sort_by (λ item. item.0) costs)) _
        (positive_weights-Holds (sort_by (λ item. item.0) costs))
        (λ nodes h. IsSettled-start (decimals.mul total ratio) contract nodes t h))
