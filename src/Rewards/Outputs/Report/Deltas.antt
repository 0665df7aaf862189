-- ===== src/Rewards/Outputs/Report/Deltas.antt =====
-- The changes of balances that src/xian/rewards.py reports, against the rewards by kind.
use text.Mathlib.TextLemmas.{append_cancel_left}
use xian_abci.Prelude.{String, ◌≡◌, ◌∙◌, ap, if◌then◌else◌, ◌==◌, string_eq, arith, List, [], ◌∷◌}
use xian_abci.Prelude.Dict.{Dict, lookup, lookup-insert}
use xian_abci.Rewards.{Decimals}
use xian_abci.Rewards.Split.{RewardRecord, credit}
use xian_abci.Rewards.Split.Ledger.{Additive, balance, balance-credit}
use xian_abci.Rewards.Outputs.{OutputRewards}
use xian_abci.Rewards.Outputs.Report.{
  TxRewards, no_rewards, balance_key, plus, accumulate, in_tau, add_foundation,
  add_validator_record, add_validator_records, add_developer, add_developers, add_developer_records,
  assemble,
}

module _ (decimals : Decimals) (laws : Additive decimals) where
  balance-accumulate :
      (key j : String) (amount : decimals.Number) (bucket : Dict String decimals.Number)
      → balance decimals key (accumulate decimals j amount bucket) ≡ (
          if j == key
          then decimals.add (balance decimals key bucket) amount
          else balance decimals key bucket)
  unfolding accumulate
  balance-accumulate key j amount bucket = ground (
    arith,
    string_eq.same_iff j key,
    lookup-insert j key (plus decimals (lookup j bucket) amount) bucket,
    laws.zero_add amount,
  )

  -- Two recipients have two balances.
  balance_key-eqb :
      (j key : String) → (balance_key decimals j == balance_key decimals key) ≡ (j == key)
  balance_key-eqb j key = ground (
    arith,
    string_eq.same_iff j key,
    string_eq.same_iff (balance_key decimals j) (balance_key decimals key),
    append_cancel_left "currency.balances:" j key,
    ap (balance_key decimals),
  )

  balance-credit_key :
      (key j : String) (amount : decimals.Number) (deltas : Dict String decimals.Number)
      → balance decimals
          (balance_key decimals key)
          (credit decimals (balance_key decimals j) amount deltas)
        ≡ (if j == key
            then decimals.add (balance decimals (balance_key decimals key) deltas) amount
            else balance decimals (balance_key decimals key) deltas)
  balance-credit_key key j amount deltas =
      balance-credit decimals (balance_key decimals key) (balance_key decimals j) amount deltas
      ∙ ap
          (λ b.
            if b
            then decimals.add (balance decimals (balance_key decimals key) deltas) amount
            else balance decimals (balance_key decimals key) deltas)
          (balance_key-eqb j key)

  -- What a recipient has in the four buckets.
  abbrev pub in_buckets : String → TxRewards decimals → decimals.Number
  in_buckets key rewards =
      decimals.add
        (decimals.add (balance decimals key rewards.foundation)
          (balance decimals key rewards.validator))
        (decimals.add (balance decimals key rewards.delegator)
          (balance decimals key rewards.developer))

  -- The change of a recipient's balance is what it has in the buckets.
  abbrev pub IsBalanced : String → TxRewards decimals → Type 0
  IsBalanced key rewards =
      balance decimals (balance_key decimals key) rewards.deltas ≡ in_buckets key rewards

  swap_right :
      (a b c : decimals.Number)
      → decimals.add (decimals.add a b) c ≡ decimals.add (decimals.add a c) b
  swap_right a b c = cc (laws.add_assoc a b c, laws.add_assoc a c b, laws.add_comm b c)

  -- An amount that goes to the sum goes to one of its four parts.
  abbrev four :
      decimals.Number → decimals.Number → decimals.Number → decimals.Number → decimals.Number
  four f v g e = decimals.add (decimals.add f v) (decimals.add g e)

  to_foundation :
      (f v g e a : decimals.Number) → decimals.add (four f v g e) a ≡ four (decimals.add f a) v g e
  to_foundation f v g e a =
      cc (swap_right (decimals.add f v) (decimals.add g e) a, swap_right f v a)

  to_validator :
      (f v g e a : decimals.Number) → decimals.add (four f v g e) a ≡ four f (decimals.add v a) g e
  to_validator f v g e a =
      cc (swap_right (decimals.add f v) (decimals.add g e) a, laws.add_assoc f v a)

  to_delegator :
      (f v g e a : decimals.Number) → decimals.add (four f v g e) a ≡ four f v (decimals.add g a) e
  to_delegator f v g e a =
      cc (laws.add_assoc (decimals.add f v) (decimals.add g e) a, swap_right g e a)

  to_developer :
      (f v g e a : decimals.Number) → decimals.add (four f v g e) a ≡ four f v g (decimals.add e a)
  to_developer f v g e a =
      cc (laws.add_assoc (decimals.add f v) (decimals.add g e) a, laws.add_assoc g e a)

  IsBalanced-validator_record :
      (key : String) (chi_rate : decimals.Number) (reward : RewardRecord decimals)
      (rewards : TxRewards decimals)
      → IsBalanced key rewards
      → IsBalanced key (add_validator_record decimals chi_rate reward rewards)
  unfolding add_validator_record
  IsBalanced-validator_record key chi_rate reward rewards h =
      let j = reward.recipient_key in
      let amount = in_tau decimals chi_rate reward.value in
      let f = balance decimals key rewards.foundation in
      let v = balance decimals key rewards.validator in
      let g = balance decimals key rewards.delegator in
      let e = balance decimals key rewards.developer in
      ground (
        arith,
        balance-credit_key key j amount rewards.deltas,
        balance-accumulate key j amount rewards.validator,
        balance-accumulate key j amount rewards.delegator,
        to_validator f v g e amount,
        to_delegator f v g e amount,
      )

  IsBalanced-validator_records :
      (key : String) (chi_rate : decimals.Number) (records : List (RewardRecord decimals))
      (rewards : TxRewards decimals)
      → IsBalanced key rewards
      → IsBalanced key (add_validator_records decimals chi_rate records rewards)
  IsBalanced-validator_records key chi_rate [] rewards h = h
  IsBalanced-validator_records key chi_rate (reward ∷ records) rewards h =
      IsBalanced-validator_records key chi_rate records _
        (IsBalanced-validator_record key chi_rate reward rewards h)

  IsBalanced-developers :
      (key : String) (chi_rate : decimals.Number) (mapping : Dict String decimals.Number)
      (rewards : TxRewards decimals)
      → IsBalanced key rewards
      → IsBalanced key (add_developers decimals chi_rate mapping rewards)
  unfolding add_developer
  IsBalanced-developers key chi_rate [] rewards h = h
  IsBalanced-developers key chi_rate ((j, reward) ∷ mapping) rewards h =
      let amount = in_tau decimals chi_rate reward in
      let f = balance decimals key rewards.foundation in
      let v = balance decimals key rewards.validator in
      let g = balance decimals key rewards.delegator in
      let e = balance decimals key rewards.developer in
      IsBalanced-developers key chi_rate mapping (add_developer decimals chi_rate j reward rewards)
        (ground (
          arith,
          balance-credit_key key j amount rewards.deltas,
          balance-accumulate key j amount rewards.developer,
          to_developer f v g e amount,
        ))

  IsBalanced-developer_records :
      (key : String) (chi_rate : decimals.Number) (records : List (RewardRecord decimals))
      (rewards : TxRewards decimals)
      → IsBalanced key rewards
      → IsBalanced key (add_developer_records decimals chi_rate records rewards)
  IsBalanced-developer_records key chi_rate [] rewards h = h
  IsBalanced-developer_records key chi_rate (reward ∷ records) rewards h =
      IsBalanced-developer_records key chi_rate records _ h

  IsBalanced-foundation :
      (key owner : String) (chi_rate reward : decimals.Number)
      → IsBalanced key (add_foundation decimals chi_rate owner reward (no_rewards decimals))
  unfolding add_foundation lookup
  IsBalanced-foundation key owner chi_rate reward =
      let amount = in_tau decimals chi_rate reward in
      ground (
        arith,
        balance-credit_key key owner amount [],
        lookup-insert owner key amount [],
        to_foundation decimals.zero decimals.zero decimals.zero decimals.zero amount,
        laws.zero_add decimals.zero,
        laws.zero_add amount,
      )

  -- Where addition does not round: the change that is reported for the balance of a recipient is
  -- the sum of what it has as the foundation's owner, as a validator, as a delegator and as a
  -- developer, whatever the outputs that the rewards are assembled from.
  pub assemble-IsBalanced :
      (key : String) (chi_rate : decimals.Number) (foundation_owner : String)
      (outputs : OutputRewards decimals)
      → IsBalanced key (assemble decimals chi_rate foundation_owner outputs)
  unfolding assemble
  assemble-IsBalanced key chi_rate foundation_owner outputs =
      IsBalanced-developer_records key chi_rate outputs.developers.records _ (
        IsBalanced-developers key chi_rate outputs.developers.mapping _ (
          IsBalanced-validator_records key chi_rate outputs.validators.records _
            (IsBalanced-foundation key foundation_owner chi_rate outputs.foundation)))
