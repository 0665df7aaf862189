-- ===== src/Rewards/Split/Conserved.antt =====
-- No chi is made by the splits of src/xian/rewards.py: a validator's reward, with its
-- delegators.
pub mod Single
pub mod Set
pub mod Developers
use mathlib.Core.Path.{subst}
use xian_abci.Prelude.{
  String, ◌≡◌, refl, sym, ◌∙◌, ap, ap₂, Bool, true, false, not, if◌then◌else◌, arith, List, [], ◌∷◌,
  ◌++◌, Bool-cases, inl, inr,
}
use xian_abci.Result.{Except, ok, err, Holds, Holds->>=, Holds-any, Holds-imp}
use xian_abci.Value.{null, bool, int, float, str, arr, obj}
use xian_abci.Rewards.{
  Decimals, Client, Stored, decimal, plain, as_decimal, decimal_or, clamp_bps, at_least_zero,
  one_unless_positive, not_positive, get_validator_power, get_validator_reward_key,
  get_validator_commission_bps, get_validator_self_bond, get_validator_delegators,
}
use xian_abci.Rewards.Split.{
  RewardRecord, Outputs, give, no_outputs, Delegation, Pot, pay_delegators, pay_operator,
  operator_total, split_reward, read_delegations, build_single_validator_reward_outputs,
  total_delegated,
}
use xian_abci.Rewards.Split.Ledger.{Additive}

module _ (decimals : Decimals) where
  abbrev pub IsLe : decimals.Number → decimals.Number → Type 0
  IsLe a b = decimals.lt b a ≡ false

  abbrev pub IsLt : decimals.Number → decimals.Number → Type 0
  IsLt a b = decimals.lt a b ≡ true

  -- `x * part / whole`
  abbrev pub portion : decimals.Number → decimals.Number → decimals.Number → decimals.Number
  portion x part whole = decimals.div (decimals.mul x part) whole

  -- Decimals whose sums and differences are exact and whose portions are rounded down, if at all.
  -- `ContractingDecimal(str(x))` is rounded down, too, by no more than `dust`.
  pub record RoundsDown : Type 0 where
    pub additive : Additive decimals
    pub dust : decimals.Number
    pub contracting-le : (a : decimals.Number) → IsLe (decimals.contracting a) a
    pub contracting-near :
        (a : decimals.Number) → IsLe a (decimals.add (decimals.contracting a) dust)
    pub add-sub : (a b : decimals.Number) → decimals.add a (decimals.sub b a) ≡ b
    pub le_trans : (a b c : decimals.Number) → IsLe a b → IsLe b c → IsLe a c
    pub lt_le : (a b : decimals.Number) → IsLt a b → IsLe a b
    pub lt_trans : (a b c : decimals.Number) → IsLt a b → IsLe b c → IsLt a c
    pub le-add : (a b c : decimals.Number) → IsLe a b → IsLe (decimals.add a c) (decimals.add b c)
    pub le-sub : (a b : decimals.Number) → IsLe a b → IsLe decimals.zero (decimals.sub b a)
    pub le_self : (a : decimals.Number) → IsLe a a
    pub one_positive : IsLt decimals.zero decimals.one
    pub ten_thousand_positive : IsLt decimals.zero decimals.ten_thousand
    pub le-portion :
        (x part whole : decimals.Number)
        → IsLe decimals.zero x
        → IsLe decimals.zero part
        → IsLt decimals.zero whole
        → IsLe decimals.zero (portion x part whole)
    pub portion-le :
        (x part whole : decimals.Number)
        → IsLe decimals.zero x
        → IsLe decimals.zero part
        → IsLe part whole
        → IsLt decimals.zero whole
        → IsLe (portion x part whole) x
    pub portion_whole :
        (x whole : decimals.Number)
        → IsLe decimals.zero x
        → IsLt decimals.zero whole
        → portion x whole whole ≡ x
    pub portions-le :
        (x a b whole : decimals.Number)
        → IsLe decimals.zero x
        → IsLe decimals.zero a
        → IsLe decimals.zero b
        → IsLt decimals.zero whole
        → IsLe
            (decimals.add (portion x a whole) (portion x b whole))
            (portion x (decimals.add a b) whole)

  -- The values of the records together.
  abbrev pub paid : List (RewardRecord decimals) → decimals.Number
  paid [] = decimals.zero
  paid (reward ∷ records) = decimals.add reward.value (paid records)

  module _ (laws : RoundsDown) where
    -- The most that the rounding of the records can lose, `dust` for each.
    abbrev pub lost : List (RewardRecord decimals) → decimals.Number
    lost [] = decimals.zero
    lost (reward ∷ records) = decimals.add laws.dust (lost records)

    -- The records come to no more than an amount, and to no less but for what the rounding loses.
    pub record Pays (records : List (RewardRecord decimals)) (amount : decimals.Number)
        : Type 0 where
      pub at_most : IsLe (paid records) amount
      pub nearly : IsLe amount (decimals.add (paid records) (lost records))

    pub add_zero : (a : decimals.Number) → decimals.add a decimals.zero ≡ a
    add_zero a = laws.additive.add_comm a decimals.zero ∙ laws.additive.zero_add a

    -- A sum with a part that is not negative is at least the other part.
    pub le-add_left : (a b : decimals.Number) → IsLe decimals.zero a → IsLe b (decimals.add a b)
    le-add_left a b h =
        subst (λ c. IsLe c (decimals.add a b)) (laws.additive.zero_add b)
          (laws.le-add decimals.zero a b h)

    pub sum_positive :
        (a b : decimals.Number)
        → IsLe decimals.zero a
        → IsLe decimals.zero b
        → IsLe decimals.zero (decimals.add a b)
    sum_positive a b h k = laws.le_trans decimals.zero b _ k (le-add_left a b h)

    le-sum :
        (a b c d : decimals.Number)
        → IsLe a b
        → IsLe c d
        → IsLe (decimals.add a c) (decimals.add b d)
    le-sum a b c d h k =
        laws.le_trans (decimals.add a c) (decimals.add b c) (decimals.add b d) (laws.le-add a b c h)
          (subst (λ n. IsLe n (decimals.add b d)) (laws.additive.add_comm c b)
            (subst (λ n. IsLe (decimals.add c b) n) (laws.additive.add_comm d b)
              (laws.le-add c d b k)))

    -- The sums of two sums, by their first and their second parts.
    interchange :
        (a b c d : decimals.Number)
        → decimals.add (decimals.add a b) (decimals.add c d)
          ≡ decimals.add (decimals.add a c) (decimals.add b d)
    interchange a b c d = cc (
      laws.additive.add_assoc a b (decimals.add c d),
      laws.additive.add_assoc b c d,
      laws.additive.add_comm b c,
      laws.additive.add_assoc c b d,
      laws.additive.add_assoc a c (decimals.add b d),
    )

    paid-append :
        (rs ss : List (RewardRecord decimals)) → paid (rs ++ ss) ≡ decimals.add (paid rs) (paid ss)
    paid-append [] ss = sym (laws.additive.zero_add (paid ss))
    paid-append (r ∷ rs) ss =
        ap (decimals.add r.value) (paid-append rs ss)
        ∙ sym (laws.additive.add_assoc r.value (paid rs) (paid ss))

    lost-append :
        (rs ss : List (RewardRecord decimals)) → lost (rs ++ ss) ≡ decimals.add (lost rs) (lost ss)
    lost-append [] ss = sym (laws.additive.zero_add (lost ss))
    lost-append (r ∷ rs) ss =
        ap (decimals.add laws.dust) (lost-append rs ss)
        ∙ sym (laws.additive.add_assoc laws.dust (lost rs) (lost ss))

    pub Pays-append :
        (rs ss : List (RewardRecord decimals)) (a b : decimals.Number)
        → Pays rs a
        → Pays ss b
        → Pays (rs ++ ss) (decimals.add a b)
    Pays-append rs ss a b h k = record {
      at_most =
          subst (λ n. IsLe n (decimals.add a b)) (sym (paid-append rs ss))
            (le-sum (paid rs) a (paid ss) b h.at_most k.at_most);
      nearly =
          subst (λ n. IsLe (decimals.add a b) n)
            (interchange (paid rs) (lost rs) (paid ss) (lost ss)
              ∙ ap₂ decimals.add (sym (paid-append rs ss)) (sym (lost-append rs ss)))
            (le-sum a _ b _ h.nearly k.nearly);
    }

    pub Pays-none : Pays [] decimals.zero
    Pays-none = record {
      at_most = laws.le_self decimals.zero;
      nearly =
          subst (λ n. IsLe decimals.zero n) (sym (laws.additive.zero_add decimals.zero))
            (laws.le_self decimals.zero);
    }

    -- One record, of an amount that is rounded.
    pub Pays-one :
        (reward : RewardRecord decimals) (amount : decimals.Number)
        → reward.value ≡ decimals.contracting amount
        → Pays (reward ∷ []) amount
    Pays-one reward amount h = record {
      at_most =
          subst (λ n. IsLe n amount) (sym (add_zero reward.value ∙ h)) (laws.contracting-le amount);
      nearly =
          subst (λ n. IsLe amount n)
            (ap₂ decimals.add (sym (add_zero reward.value ∙ h)) (sym (add_zero laws.dust)))
            (laws.contracting-near amount);
    }

    pub Pays-give :
        (reward : RewardRecord decimals) (outputs : Outputs decimals) (a amount : decimals.Number)
        → reward.value ≡ decimals.contracting amount
        → Pays outputs.records a
        → Pays (give decimals reward outputs).records (decimals.add a amount)
    unfolding give
    Pays-give reward outputs a amount h p =
        Pays-append outputs.records (reward ∷ []) a amount p (Pays-one reward amount h)

    pub Pays-pay_delegators :
        (validator : String) (pot : Pot decimals) (d : Delegation decimals)
        (ds : List (Delegation decimals)) (allocated : decimals.Number) (outputs : Outputs decimals)
        → Pays outputs.records allocated
        → Pays
            (pay_delegators decimals validator pot (d ∷ ds) allocated outputs).records
            pot.total_reward
    unfolding pay_delegators
    Pays-pay_delegators validator pot d [] allocated outputs h =
        subst (Pays (pay_delegators decimals validator pot (d ∷ []) allocated outputs).records)
          (laws.add-sub allocated pot.total_reward)
          (Pays-give _ outputs allocated (decimals.sub pot.total_reward allocated) refl h)
    Pays-pay_delegators validator pot d (e ∷ ds) allocated outputs h =
        let share = decimals.div (decimals.mul pot.remainder d.weight) pot.stake_base in
        Pays-pay_delegators validator pot e ds (decimals.add allocated share) _
          (Pays-give _ outputs allocated share refl h)

    -- An operator's total of 0 has no record.
    pub Pays-pay_operator :
        (validator operator_key : String) (total : decimals.Number)
        → IsLe decimals.zero total
        → Pays
            (pay_operator decimals validator operator_key total (no_outputs decimals)).records
            total
    Pays-pay_operator validator operator_key total h =
        elim (Bool-cases (decimals.lt decimals.zero total)) [
          | inl e ↦ rw e (
              subst (Pays _) (laws.additive.zero_add total)
                (Pays-give _ (no_outputs decimals) decimals.zero total refl Pays-none))
          | inr e ↦ rw e (record {
            at_most = h;
            nearly = subst (λ n. IsLe total n) (sym (laws.additive.zero_add decimals.zero)) e;
          })
        ]

    operator_total-le :
        (commission remainder bond base : decimals.Number)
        → IsLe decimals.zero commission
        → IsLe decimals.zero remainder
        → IsLt decimals.zero base
        → IsLe decimals.zero (operator_total decimals commission remainder bond base)
    unfolding operator_total
    operator_total-le commission remainder bond base c r b =
        elim (Bool-cases (decimals.lt decimals.zero bond)) [
          | inl e ↦ rw e (
              sum_positive commission (portion remainder bond base) c
                (laws.le-portion remainder bond base r (laws.lt_le decimals.zero bond e) b))
          | inr e ↦ rw e c
        ]

    -- Without delegators the operator has it all.
    operator_total-whole :
        (total commission bond base : decimals.Number)
        → IsLe decimals.zero (decimals.sub total commission)
        → IsLt decimals.zero base
        → base ≡ bond
        → operator_total decimals commission (decimals.sub total commission) bond base ≡ total
    unfolding operator_total
    operator_total-whole total commission bond base r b same =
        rw (subst (λ n. IsLt decimals.zero n) same b) (
          ap (λ n. decimals.add commission (portion (decimals.sub total commission) n base))
            (sym same)
          ∙ ap (decimals.add commission)
              (laws.portion_whole (decimals.sub total commission) base r b)
          ∙ laws.add-sub commission total)
