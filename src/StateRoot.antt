-- ===== src/StateRoot.antt =====
-- src/xian/state_root.py: the treap over the consensus state whose root hash is the app hash.
pub mod Hashing
pub mod Treap
pub mod Cache
mod Tests
