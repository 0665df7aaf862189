-- ===== src/Validators.antt =====
-- src/xian/validators.py: the validator set that the contract state selects, and the updates that
-- bring CometBFT's set to it. The power of a validator is a value of the contract runtime: its
-- comparison with 0 and its `int()` are parameters. A key is the list of the code points of a text.
pub mod Updates
mod Tests
use xian_abci.Prelude.{
  ℕ, ◌+◌, String, Bool, true, false, not, ◌&&◌, leb, if◌then◌else◌, ◌==◌, Option, none, some, List,
  [], ◌∷◌, ◌++◌, map,
}
use xian_abci.Prelude.Bytes.{Bytes, bytes_eq}
use xian_abci.Prelude.Int.{ℤ, pos, int_eq}
use xian_abci.Prelude.Dict.{Dict, lookup, insert, contains}
use xian_abci.Result.{Except, ok, err, ◌>>=◌}
use xian_abci.Value.{Value, null, str, arr, Items, nil, cons, truth}
use xian_abci.Value.Number.{codes}
use xian_abci.Formatting.{vk_is_formatted}
use xian_abci.Encoding.{from_hex}

-- The powers of the validators by key.
abbrev pub Powers : Type 0
Powers = Dict Bytes ℤ

pub record ValidatorUpdate : Type 0 where
  pub pub_key : Bytes
  pub power : ℤ

abbrev pub default_validator_power : ℤ
default_validator_power = pos 10

-- `str.lower` on ASCII; a validator's key has nothing else.
abbrev lower_ascii : ℕ → ℕ
lower_ascii c = if leb b'A' c && leb c b'Z' then c + 32 else c

abbrev pub key_of : Value → Bytes
key_of (str s) = map lower_ascii (codes s)
key_of _ = []

-- `current_power == power`.
abbrev pub is_power : Option ℤ → ℤ → Bool
is_power none p = false
is_power (some q) p = q == p

abbrev conflicts : Option ℤ → ℤ → Bool
conflicts none p = false
conflicts (some q) p = not (q == p)

-- `powers or {}`.
abbrev pub or_empty : Option Powers → Powers
or_empty none = []
or_empty (some powers) = powers

-- An empty selection leaves the committed set.
abbrev pub effective : Powers → Powers → Powers
effective [] committed = committed
effective (e ∷ state) committed = e ∷ state

-- The loop over the effective set: what is new or has another power.
unfoldable pub changed : Powers → Powers → List (Bytes × ℤ)
changed committed [] = []
changed committed ((validator, power) ∷ state) =
    let rest = changed committed state in
    if is_power (lookup validator committed) power then rest else (validator, power) ∷ rest

-- The loop over the committed set: what has gone, at power 0.
unfoldable pub removed : Powers → Powers → List (Bytes × ℤ)
removed state [] = []
removed state ((validator, _) ∷ committed) =
    let rest = removed state committed in
    if contains validator state then rest else (validator, pos 0) ∷ rest

unfoldable pub changes : Powers → Powers → List (Bytes × ℤ)
changes state committed = changed committed state ++ removed state committed

-- `ValidatorUpdate(pub_key=PublicKey(ed25519=self.to_bytes(validator)), power=power)`.
unfoldable pub to_updates : List (Bytes × ℤ) → Except (List ValidatorUpdate)
to_updates [] = ok []
to_updates ((validator, power) ∷ rest) = do
  key ← from_hex validator
  updates ← to_updates rest
  ok (record { pub_key = key; power = power } ∷ updates)

module _ {Power : Type 0} (is_not_positive : Power → Except Bool) (int_of : Power → Except ℤ) where
  unfoldable pub validator_power : Option Power → Except ℤ
  validator_power none = ok default_validator_power
  validator_power (some power) = do
    unset ← is_not_positive power
    if unset then ok default_validator_power else int_of power

  -- What the state holds: the list, and the power under a validator's text.
  pub record Reads : Type 0 where
    pub active_validators : Value
    pub power_of : Value → Option Power

  -- One round of the loop; `none` where two powers of one key conflict.
  unfoldable pub select_validator : Reads → Value → Powers → Except (Option Powers)
  select_validator reads validator desired =
      if vk_is_formatted validator
      then (do
        power ← validator_power (reads.power_of validator)
        let key = key_of validator
        if conflicts (lookup key desired) power
            then ok none
            else ok (some (insert key power desired)))
      else ok (some desired)

  unfoldable pub select_validators : Reads → Items → Powers → Except (Option Powers)
  select_validators reads nil desired = ok (some desired)
  select_validators reads (cons validator validators) desired =
      select_validator reads validator desired >>= λ next. elim next [
        | none ↦ ok none
        | some desired' ↦ select_validators reads validators desired'
      ]

  abbrev active_list : Reads → Value → Except (Option Powers)
  active_list reads (arr validators) = select_validators reads validators []
  active_list reads _ = ok none

  unfoldable pub get_validators_from_state : Reads → Except (Option Powers)
  get_validators_from_state reads =
      active_list reads (if truth reads.active_validators then reads.active_validators else arr nil)

  -- The set kept under `CONSENSUS_VALIDATORS_KEY`, and before there is one, the committed state.
  unfoldable pub committed_validators : Option Powers → Reads → Except Powers
  committed_validators none reads =
      get_validators_from_state reads >>= λ powers. ok (or_empty powers)
  committed_validators (some powers) reads = ok powers

  -- The updates, with the set that is staged for the next block unless it is empty.
  unfoldable pub build_validator_updates :
      Reads → Reads → Option Powers → Except (Powers × List ValidatorUpdate)
  build_validator_updates reads on_disk consensus = do
    selected ← get_validators_from_state reads
    committed ← committed_validators consensus on_disk
    let state = effective (or_empty selected) committed
    updates ← to_updates (changes state committed)
    ok (state, updates)
