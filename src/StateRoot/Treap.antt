-- ===== src/StateRoot/Treap.antt =====
-- src/xian/state_root.py: the treap nodes and the functions on them. `None` is `empty`; a function
-- that mutates nodes and returns the new root is a pure function, since no node is shared.
pub mod Order
pub mod Insertion
pub mod Find
pub mod Canonical
use xian_abci.Prelude.{
  ℕ, String, Bool, true, false, ltb, if◌then◌else◌, ◌==◌, string_eq, Option, none, some, [],
}
use xian_abci.Prelude.Text.{text_ltb}
use xian_abci.Prelude.Bytes.{Bytes}
use xian_abci.StateRoot.Hashing.{hash_priority, hash_node, empty_state_root}

-- key, priority, leaf_hash, left, right, root_hash
pub data Treap : Type 0 where
  empty : Treap
  node : String → ℕ → Bytes → Treap → Treap → Bytes → Treap

module _ (sha256 : Bytes → Bytes) where
  abbrev pub subtree_hash : Treap → Bytes
  subtree_hash empty = empty_state_root sha256
  subtree_hash (node k p h l r root_hash) = root_hash

  abbrev pub refresh : Treap → Treap
  refresh empty = empty
  refresh (node k p h l r _) = node k p h l r (hash_node sha256 (subtree_hash l) h (subtree_hash r))

  abbrev pub new_node : String → Bytes → Treap
  new_node key leaf_hash = refresh (node key (hash_priority sha256 key) leaf_hash empty empty [])

  -- Called only where the left child is a node.
  abbrev pub rotate_right : Treap → Treap
  rotate_right (node k p h (node lk lp lh ll lr lroot) r root) =
      refresh (node lk lp lh ll (refresh (node k p h lr r root)) lroot)
  rotate_right t = t

  -- Called only where the right child is a node.
  abbrev pub rotate_left : Treap → Treap
  rotate_left (node k p h l (node rk rp rh rl rr rroot) root) =
      refresh (node rk rp rh (refresh (node k p h l rl root)) rr rroot)
  rotate_left t = t

  -- `child is not None and child.priority < node.priority`
  abbrev pub is_above : Treap → ℕ → Bool
  is_above empty p = false
  is_above (node _ q _ _ _ _) p = ltb q p

  -- After an insertion on the left.
  unfoldable pub settle_left : String → ℕ → Bytes → Treap → Treap → Bytes → Treap
  settle_left k p h left r root =
      if is_above left p
      then rotate_right (node k p h left r root)
      else refresh (node k p h left r root)

  -- After an insertion on the right.
  unfoldable pub settle_right : String → ℕ → Bytes → Treap → Treap → Bytes → Treap
  settle_right k p h l right root =
      if is_above right p
      then rotate_left (node k p h l right root)
      else refresh (node k p h l right root)

  unfoldable pub insert_or_update : Treap → String → Bytes → Treap
  insert_or_update empty key leaf_hash = new_node key leaf_hash
  insert_or_update (node k p h l r root) key leaf_hash =
      let left = insert_or_update l key leaf_hash in
      let right = insert_or_update r key leaf_hash in
      if key == k
      then refresh (node k p leaf_hash l r root)
      else if text_ltb key k
      then settle_left k p h left r root
      else settle_right k p h l right root

  unfoldable pub merge : Treap → Treap → Treap
  merge empty right = right
  merge left empty = left
  merge (node k p h l r root) (node j q g s t top) =
      let inner = merge r (node j q g s t top) in
      let outer = merge (node k p h l r root) s in
      if ltb p q then refresh (node k p h l inner root) else refresh (node j q g outer t top)

  unfoldable pub delete : Treap → String → Treap
  delete empty key = empty
  delete (node k p h l r root) key =
      let left = delete l key in
      let right = delete r key in
      if key == k
      then merge l r
      else if text_ltb key k
      then refresh (node k p h left r root)
      else refresh (node k p h l right root)

-- The leaf hash that the tree holds at a key, by the search that the order of the keys allows.
unfoldable pub find : String → Treap → Option Bytes
find key empty = none
find key (node k p h l r root) =
    let left = find key l in
    let right = find key r in if key == k then some h else if text_ltb key k then left else right
