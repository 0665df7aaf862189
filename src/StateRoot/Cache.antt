-- ===== src/StateRoot/Cache.antt =====
-- src/xian/state_root.py: `StateRootCache`, the treap with the leaf hashes beside it and the old
-- hashes of a block that is not committed yet. Keys are texts, so that the `TypeError` on any other
-- key has no counterpart. `encode_abci_json` (src/xian/utils/encoding.py) gives the bytes of a
-- value, and `None` is a value that is not there.
pub mod Coherence
pub mod Staging
pub mod Roots
use xian_abci.Prelude.{
  ℕ, String, Bool, length, not, if◌then◌else◌, string_eq, Option, none, some, List, [], ◌∷◌,
}
use mathlib.Core.Option
use xian_abci.Prelude.Bytes.{Bytes, option_bytes_eqb}
use xian_abci.Prelude.Dict.{Dict, lookup, insert, erase, contains}
use xian_abci.StateRoot.Hashing.{is_consensus_state_key, hash_leaf}
use xian_abci.StateRoot.Treap.{Treap, empty, subtree_hash, insert_or_update, delete}

pub record StateRootCache : Type 0 where
  pub root : Treap
  pub leaf_hashes : Dict String Bytes
  pub staged_old_leaf_hashes : Dict String (Option Bytes)

-- How `rebuild` ends.
pub data Rebuilt : Type 0 where
  rebuilt : Bytes → Rebuilt
  duplicate_key : String → Rebuilt

abbrev pub empty_cache : StateRootCache
empty_cache = record { root = empty; leaf_hashes = []; staged_old_leaf_hashes = [] }

unfoldable pub leaf_count : StateRootCache → ℕ
leaf_count c = length c.leaf_hashes

unfoldable pub commit : StateRootCache → StateRootCache
commit c = record c { staged_old_leaf_hashes = [] }

module _ (sha256 : Bytes → Bytes) where
  unfoldable pub root_hash : StateRootCache → Bytes
  root_hash c = subtree_hash sha256 c.root

  unfoldable pub set_leaf_hash : StateRootCache → String → Option Bytes → StateRootCache
  set_leaf_hash c key none = record c {
    leaf_hashes = erase key c.leaf_hashes;
    root = delete sha256 c.root key;
  }
  set_leaf_hash c key (some leaf_hash) = record c {
    leaf_hashes = insert key leaf_hash c.leaf_hashes;
    root = insert_or_update sha256 c.root key leaf_hash;
  }

  -- The loop over the reversed items: what was staged last is undone first.
  unfoldable pub undo : Dict String (Option Bytes) → StateRootCache → StateRootCache
  undo [] c = c
  undo ((key, old_leaf_hash) ∷ staged) c = set_leaf_hash (undo staged c) key old_leaf_hash

  -- With nothing staged the loop and the `clear` do nothing.
  unfoldable pub rollback : StateRootCache → StateRootCache
  rollback c = record (undo c.staged_old_leaf_hashes c) { staged_old_leaf_hashes = [] }

  -- `None if value is None else _hash_leaf(key, value)`.
  abbrev pub new_leaf_hash {ℓ} :
      {V : Type ℓ} (encode_abci_json : V → Bytes) → String → Option V → Option Bytes
  new_leaf_hash encode_abci_json key value =
      Option.map (hash_leaf sha256 encode_abci_json key) value

  module _ {ℓ} {V : Type ℓ} (index_separator : String) (encode_abci_json : V → Bytes) where
    -- One round of the loop of `prepare`.
    unfoldable pub prepare_write : StateRootCache → String → Option V → StateRootCache
    prepare_write c key value =
        let old_leaf_hash = lookup key c.leaf_hashes in
        if not (is_consensus_state_key index_separator key)
        then c
        else if option_bytes_eqb old_leaf_hash (new_leaf_hash encode_abci_json key value)
        then c
        else set_leaf_hash
            (record c {
              staged_old_leaf_hashes = insert key old_leaf_hash c.staged_old_leaf_hashes;
            })
            key (new_leaf_hash encode_abci_json key value)

    unfoldable pub prepare_writes : Dict String (Option V) → StateRootCache → StateRootCache
    prepare_writes [] c = c
    prepare_writes ((key, value) ∷ writes) c = prepare_writes writes (prepare_write c key value)

    unfoldable pub prepare : StateRootCache → Dict String (Option V) → StateRootCache
    prepare c writes = prepare_writes writes (rollback c)

    -- The loop of `rebuild`. A value of `None` and a key outside the consensus state are skipped; a
    -- key that comes again ends the loop, with what was added so far in the cache.
    unfoldable pub rebuild_items :
        List (String × Option V) → StateRootCache → Rebuilt × StateRootCache
    rebuild_items [] c = (rebuilt (root_hash c), c)
    rebuild_items ((key, none) ∷ items) c = rebuild_items items c
    rebuild_items ((key, some value) ∷ items) c =
        let skip = rebuild_items items c in
        let add =
          rebuild_items items
            (set_leaf_hash c key (some (hash_leaf sha256 encode_abci_json key value))) in
        if not (is_consensus_state_key index_separator key)
        then skip
        else if contains key c.leaf_hashes
        then (duplicate_key key, c)
        else add

    unfoldable pub rebuild : StateRootCache → List (String × Option V) → Rebuilt × StateRootCache
    rebuild c items = rebuild_items items (record (rollback c) { root = empty; leaf_hashes = [] })

    -- `merkle_root_from_items`: the root of a new cache, or the duplicate key.
    unfoldable pub merkle_root_from_items : List (String × Option V) → Rebuilt
    merkle_root_from_items items = (rebuild empty_cache items).0
