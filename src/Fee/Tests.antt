-- ===== src/Fee/Tests.antt =====
-- The theorems on fees at a transaction and at a configuration.
use xian_abci.Prelude.Int.{pos}
use xian_abci.Prelude.{refl, ◌≡◌}
use xian_abci.Result.{ok}
use xian_abci.Value.{Value, int, str, obj, Fields, end, field, truth, to_int, lookup_field}
use xian_abci.Fee.{free_metered, tx_chi_supplied, validate_tx}
use xian_abci.Fee.Config.{from_runtime_config, normalize_tx_fee_mode, policy_of_mode, positive_int}
use xian_abci.Value.Number.{strip, drop_spaces, is_space}
use xian_abci.Fee.Limits.{Verdict, validate_tx-Verdict, Configured, from_runtime_config-Configured}

abbrev costly : Value
costly = obj (field "payload" (obj (field "chi_supplied" (int (pos 50)) end)) end)

validate_tx-Verdict_example :
    Verdict
      (free_metered (pos 10) (pos 12))
      (tx_chi_supplied costly)
      (validate_tx (free_metered (pos 10) (pos 12)) costly)
validate_tx-Verdict_example = validate_tx-Verdict (free_metered (pos 10) (pos 12)) costly

abbrev free_config : Fields
free_config =
    field "tx_fee_mode" (str " Free_Metered ") (field "free_tx_max_chi" (int (pos 10)) end)

free_config-policy : from_runtime_config free_config ≡ ok (free_metered (pos 10) (pos 20_000_000))
unfolding from_runtime_config normalize_tx_fee_mode policy_of_mode positive_int strip drop_spaces
    is_space truth to_int lookup_field
free_config-policy = refl

from_runtime_config-Configured_example : Configured (free_metered (pos 10) (pos 20_000_000))
from_runtime_config-Configured_example =
    from_runtime_config-Configured free_config (free_metered (pos 10) (pos 20_000_000))
      free_config-policy
