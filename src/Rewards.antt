-- ===== src/Rewards.antt =====
-- src/xian/rewards.py: what the split of fees reads from the contract state. Python's and the
-- runtime's decimals are a parameter, whose operations raise nothing: the code divides by positive
-- numbers and by the chi rate, which is not 0.
pub mod Split
pub mod Outputs
mod Whole
mod Tests
use xian_abci.Prelude.{
  String, Bool, true, false, not, if◌then◌else◌, ◌==◌, string_eq, Option, none, some, List, [], ◌∷◌,
}
use xian_abci.Prelude.Int.{ℤ, pos}
use xian_abci.Result.{Except, ok, err, type_error, key_error, ◌>>=◌}
use xian_abci.Value.{Value, null, str, arr, obj, Items, nil, cons, lookup_field, truth}

-- `decimal.Decimal` and `ContractingDecimal`.
pub record Decimals : Type 1 where
  pub Number : Type 0
  pub zero : Number
  pub one : Number
  pub ten_thousand : Number
  pub add : Number → Number → Number
  pub sub : Number → Number → Number
  pub mul : Number → Number → Number
  pub div : Number → Number → Number
  pub lt : Number → Number → Bool
  -- `x == 0`
  pub is_zero : Number → Bool
  -- `ContractingDecimal(str(x))`
  pub contracting : Number → Number
  -- `round(x, DUST_EXPONENT)`
  pub round : Number → Number
  -- `Decimal(str(v))`
  pub of_value : Value → Except Number

module _ (decimals : Decimals) where
  -- A value of the contract state; `plain null` is `None`.
  pub data Stored : Type 0 where
    decimal : decimals.Number → Stored
    plain : Value → Stored

  -- `get_var` of the client, at a contract, a variable and arguments.
  pub record Client : Type 0 where
    pub get_var : String → String → List String → Stored

  unfoldable pub as_decimal : Stored → Except decimals.Number
  as_decimal (decimal d) = ok d
  as_decimal (plain (obj fs)) = elim (lookup_field "__fixed__" fs) [
    | none ↦ err key_error
    | some v ↦ decimals.of_value v
  ]
  as_decimal (plain v) = decimals.of_value v

  -- `normalized <= 0`
  abbrev pub not_positive : decimals.Number → Bool
  not_positive n = not (decimals.lt decimals.zero n)

  -- `None` counts as a default, and so does what a test catches.
  abbrev pub decimal_or :
      decimals.Number → (decimals.Number → decimals.Number) → Stored → Except decimals.Number
  decimal_or default clamp (plain null) = ok default
  decimal_or default clamp v = do n ← as_decimal v; ok (clamp n)

  -- The key of a recipient, or a default for `None` and for the empty text. A key that is no text
  -- is refused.
  abbrev pub text_or : String → Stored → Except String
  text_or default (plain null) = ok default
  text_or default (plain (str s)) = ok (if s == "" then default else s)
  text_or default _ = err type_error

  abbrev pub texts : Items → Except (List String)
  texts nil = ok []
  texts (cons (str s) vs) = do rest ← texts vs; ok (s ∷ rest)
  texts (cons v vs) = err type_error

  -- A list of texts; what counts as false is an empty one.
  abbrev pub texts_of : Stored → Except (List String)
  texts_of (plain (arr vs)) = texts vs
  texts_of (plain v) = if truth v then err type_error else ok []
  texts_of (decimal d) = if decimals.is_zero d then ok [] else err type_error

  -- At least 0.
  abbrev pub at_least_zero : decimals.Number → decimals.Number
  at_least_zero n = if decimals.lt n decimals.zero then decimals.zero else n

  abbrev pub one_unless_positive : decimals.Number → decimals.Number
  one_unless_positive n = if not_positive n then decimals.one else n

  abbrev pub clamp_bps : decimals.Number → decimals.Number
  clamp_bps n =
      if decimals.lt n decimals.zero
      then decimals.zero
      else if decimals.lt decimals.ten_thousand n
      then decimals.ten_thousand
      else n

  module _ (client : Client) where
    unfoldable pub get_validator_power : String → Except decimals.Number
    get_validator_power validator =
        decimal_or decimals.one one_unless_positive
          (client.get_var "validators" "powers" (validator ∷ []))

    unfoldable pub get_validator_reward_key : String → Except String
    get_validator_reward_key validator =
        text_or validator (client.get_var "validators" "reward_keys" (validator ∷ []))

    unfoldable pub get_validator_commission_bps : String → Except decimals.Number
    get_validator_commission_bps validator =
        decimal_or decimals.zero clamp_bps
          (client.get_var "validators" "commission_bps" (validator ∷ []))

    unfoldable pub get_validator_self_bond : String → Except decimals.Number
    get_validator_self_bond validator =
        decimal_or decimals.zero at_least_zero
          (client.get_var "validators" "self_bond" (validator ∷ []))

    unfoldable pub get_validator_delegators : String → Except (List String)
    get_validator_delegators validator =
        texts_of (client.get_var "validators" "delegator_lists" (validator ∷ []))

    unfoldable pub get_validator_delegation : String → String → Except decimals.Number
    get_validator_delegation delegator validator =
        decimal_or decimals.zero at_least_zero
          (client.get_var "validators" "delegations" (delegator ∷ validator ∷ []))

    unfoldable pub get_delegator_reward_key : String → String → Except String
    get_delegator_reward_key delegator validator =
        text_or delegator
          (client.get_var "validators" "delegator_reward_keys" (delegator ∷ validator ∷ []))
