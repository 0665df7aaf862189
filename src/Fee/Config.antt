-- ===== src/Fee/Config.antt =====
-- src/xian/fee_policy.py: the policy that the configuration file asks for.
use xian_abci.Prelude.{ℕ, ◌+◌, String, leb, ◌&&◌, if◌then◌else◌, none, some, List, map}
use xian_abci.Prelude.Bytes.{bytes_eqb}
use xian_abci.Prelude.Int.{ℤ, pos, leb_ℤ}
use xian_abci.Result.{Except, ok, err, value_error, type_error, raise_if, ◌>>=◌, ◌>>◌}
use xian_abci.Value.{Value, str, int, Fields, truth, to_int, lookup_field, get_field}
use xian_abci.Value.Number.{codes, strip}
use xian_abci.Fee.{
  Mode, paid_mode, free_mode, TxFeePolicy, paid_metered, free_metered, default_free_tx_max_chi,
  default_free_block_max_chi,
}

-- `str.lower` on the letters of ASCII. No other letter lowers to one that a mode's name has.
abbrev lower : ℕ → ℕ
lower c = if leb b'A' c && leb c b'Z' then c + 32 else c

abbrev text_mode : List ℕ → Except Mode
text_mode cs =
    if bytes_eqb cs (codes "paid_metered")
    then ok paid_mode
    else if bytes_eqb cs (codes "free_metered")
    then ok free_mode
    else err value_error

-- A value that is no text has a `str()` that is the name of no mode.
abbrev named_mode : Value → Except Mode
named_mode (str s) = text_mode (map lower (strip (codes s)))
named_mode _ = err value_error

-- `str(mode or DEFAULT_TX_FEE_MODE).strip().lower()`, among the supported modes.
unfoldable pub normalize_tx_fee_mode : Value → Except Mode
normalize_tx_fee_mode mode = named_mode (if truth mode then mode else str "paid_metered")

-- `except (TypeError, ValueError)`; an `OverflowError` goes on.
abbrev pub invalid_int : Except ℤ → Except ℤ
invalid_int (err type_error) = err value_error
invalid_int r = r

unfoldable pub positive_int : Value → Except ℤ
positive_int value = do
  normalized ← invalid_int (to_int value)
  raise_if (leb_ℤ normalized (pos 0)) value_error
  ok normalized

-- `payload.get(name, default)`.
abbrev get_or_int : String → ℤ → Fields → Value
get_or_int name default config = elim (lookup_field name config) [ none ↦ int default | some v ↦ v ]

-- The policy of each mode that can be configured.
unfoldable pub policy_of_mode : Fields → Mode → Except TxFeePolicy
policy_of_mode config paid_mode = ok (paid_metered none none)
policy_of_mode config _ = do
  max_tx_chi ← positive_int (get_or_int "free_tx_max_chi" default_free_tx_max_chi config)
  max_block_chi ← positive_int (get_or_int "free_block_max_chi" default_free_block_max_chi config)
  ok (free_metered max_tx_chi max_block_chi)

-- A configuration that is `None` is an empty dict.
unfoldable pub from_runtime_config : Fields → Except TxFeePolicy
from_runtime_config config = do
  mode ← normalize_tx_fee_mode (get_field "tx_fee_mode" config)
  policy_of_mode config mode
