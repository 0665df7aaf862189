-- ===== src/Nonce/Tracker.antt =====
-- src/xian/utils/tx.py: `SequentialNonceTracker`. The committed nonces are a function, as
-- `NonceStorage.get_nonce` is for the length of a block.
pub mod Advance
use xian_abci.Prelude.{String, not, string_eq, Option, none, some, []}
use xian_abci.Prelude.Int.{ℤ, pos, ◌+ℤ◌}
use xian_abci.Prelude.Dict.{Dict, lookup, insert}
use xian_abci.Result.{
  Except, ok, err, transaction, type_error, nonce_invalid, raise_if, ◌>>=◌, ◌>>◌,
}
use xian_abci.Value.{Value, str, get_item, equals_int}

-- `_latest_nonces`.
abbrev pub Tracker : Type 0
Tracker = Dict String ℤ

abbrev pub new_tracker : Tracker
new_tracker = []

-- 0 for a sender that has no nonce, and otherwise the one after it.
abbrev pub next_of : Option ℤ → ℤ
next_of none = pos 0
next_of (some n) = n +ℤ pos 1

-- A dict key that the tracker and the storage can use: any other sender is a `TypeError`.
abbrev pub text_key : Value → Except String
text_key (str s) = ok s
text_key _ = err type_error

module _ (committed_nonce : String → Option ℤ) where
  unfoldable pub expected_nonce : Tracker → String → ℤ
  expected_nonce latest sender =
      next_of (elim (lookup sender latest) [ none ↦ committed_nonce sender | some n ↦ some n ])

  -- On success the nonce is the expected one, which becomes the sender's latest.
  unfoldable pub validate_and_advance : Tracker → Value → Except Tracker
  validate_and_advance latest tx = do
    payload ← get_item tx "payload"
    sender_value ← get_item payload "sender"
    tx_nonce ← get_item payload "nonce"
    sender ← text_key sender_value
    let expected = expected_nonce latest sender
    raise_if (not (equals_int tx_nonce expected)) (transaction (nonce_invalid expected))
    ok (insert sender expected latest)
