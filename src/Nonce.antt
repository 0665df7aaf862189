-- ===== src/Nonce.antt =====
-- The sequence numbers of senders: the deterministic tracker of a block (src/xian/utils/tx.py) and
-- the node-local reservations of the mempool (src/xian/nonce.py).
pub mod Tracker
pub mod Storage
pub mod Committed
