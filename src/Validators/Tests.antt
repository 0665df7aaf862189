-- ===== src/Validators/Tests.antt =====
-- The theorem on validator updates, where powers are ints: one validator is new, and the other one
-- of the committed set has gone.
use xian_abci.Prelude.{String, ◌≡◌, refl, Bool, some, List, [], ◌∷◌}
use xian_abci.Prelude.Bytes.{Bytes}
use xian_abci.Prelude.Int.{ℤ, pos, leb_ℤ}
use xian_abci.Prelude.Dict.{lookup, insert}
use xian_abci.Result.{Except, ok}
use xian_abci.Value.{str, arr, nil, cons, truth}
use xian_abci.Value.Number.{codes}
use xian_abci.Formatting.{vk_is_formatted, hex_of_length}
use xian_abci.Encoding.{from_hex}
use xian_abci.Validators.{
  Powers, ValidatorUpdate, Reads, key_of, changes, changed, removed, to_updates,
  get_validators_from_state, select_validators, select_validator, validator_power,
  committed_validators, build_validator_updates,
}
use xian_abci.Validators.Updates.{Brings, build_validator_updates-Brings}

abbrev is_not_positive : ℤ → Except Bool
is_not_positive power = ok (leb_ℤ power (pos 0))

abbrev new_key : String
new_key = "00112233445566778899AABBCCDDEEFF00112233445566778899AABBCCDDEEFF"

abbrev gone_key : String
gone_key = "ff112233445566778899aabbccddeeff00112233445566778899aabbccddeeff"

abbrev selected : Reads is_not_positive ok
selected = record {
  active_validators = arr (cons (str new_key) nil);
  power_of = λ validator. some (pos 7);
}

abbrev consensus : Powers
consensus = (codes gone_key, pos 10) ∷ []

abbrev after : Powers
after = (key_of (str new_key), pos 7) ∷ []

-- The bytes of the two keys.
abbrev ending : Bytes
ending =
    17 ∷ 34 ∷ 51 ∷ 68 ∷ 85 ∷ 102 ∷ 119 ∷ 136 ∷ 153 ∷ 170 ∷ 187 ∷ 204 ∷ 221 ∷ 238 ∷ 255 ∷ 0 ∷ 17 ∷ 34
    ∷ 51 ∷ 68 ∷ 85 ∷ 102 ∷ 119 ∷ 136 ∷ 153 ∷ 170 ∷ 187 ∷ 204 ∷ 221 ∷ 238 ∷ 255 ∷ []

abbrev sent : List ValidatorUpdate
sent =
    record { pub_key = 0 ∷ ending; power = pos 7 }
    ∷ record { pub_key = 255 ∷ ending; power = pos 0 }
    ∷ []

built :
    build_validator_updates is_not_positive ok selected selected (some consensus) ≡ ok (after, sent)
unfolding build_validator_updates get_validators_from_state select_validators select_validator
    validator_power committed_validators changes changed removed to_updates from_hex truth
    vk_is_formatted hex_of_length lookup insert
built = refl

build_validator_updates-Brings_example :
    (committed : Powers) × (committed_validators is_not_positive ok (some consensus) selected
      ≡ ok committed)
    × (to_updates (changes after committed) ≡ ok sent)
    × Brings (changes after committed) committed after
unfolding lookup
build_validator_updates-Brings_example =
    build_validator_updates-Brings is_not_positive ok selected selected (some consensus) after sent
      built (refl, tt) (refl, tt)
