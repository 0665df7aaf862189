-- ===== src/StateRoot/Hashing.antt =====
-- src/xian/state_root.py: which keys are part of the consensus state, and the hashes of leaves and
-- inner nodes. `sha256` is hashlib's, and stays a parameter.
use mathlib.Core.List.{◌++◌}
use text.Mathlib.Text.{starts_with}
use xian_abci.Prelude.{ℕ, String, Bool, ◌||◌, not, length, ◌==◌, string_eq}
use xian_abci.Prelude.Bytes.{Bytes, utf8, to_bytes_big, from_bytes_big}
use Prim.Native.String.{◌++◌ as text_append}

abbrev pub execution_policy_key : String
execution_policy_key = "__execution_policy"

-- `contracting_constants.INDEX_SEPARATOR` is a constant of a package.
unfoldable pub is_consensus_state_key : String → String → Bool
is_consensus_state_key index_separator key =
    key == execution_policy_key
    || not (starts_with key "__")
    || starts_with key (text_append "__n" index_separator)

abbrev pub state_root_version : String
state_root_version = "xian-state-root-v2"

abbrev prefixed : String → Bytes
prefixed suffix = utf8 (text_append state_root_version suffix)

-- The length as eight bytes, and the payload.
pub length_prefixed : Bytes → Bytes
length_prefixed payload = to_bytes_big 8 (length payload) ++ payload

module _ (sha256 : Bytes → Bytes) where
  pub empty_state_root : Bytes
  empty_state_root = sha256 (prefixed ":empty")

  unfoldable pub hash_priority : String → ℕ
  hash_priority key = from_bytes_big (sha256 (prefixed ":priority:" ++ utf8 key))

  unfoldable pub hash_node : Bytes → Bytes → Bytes → Bytes
  hash_node left leaf_hash right = sha256 (prefixed ":node:" ++ (left ++ (leaf_hash ++ right)))

  module _ {ℓ} {V : Type ℓ} (encode_abci_json : V → Bytes) where
    pub hash_leaf : String → V → Bytes
    unfolding length_prefixed
    hash_leaf key value = sha256 (
        prefixed ":leaf:"
        ++ (length_prefixed (utf8 key) ++ length_prefixed (encode_abci_json value)))
