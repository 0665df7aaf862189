-- ===== src/Commit.antt =====
-- src/xian/methods/commit.py over the marker of the latest block.
pub mod Marker
pub mod Durable
mod Tests
use xian_abci.Prelude.{String, Bool, ◌&&◌, if◌then◌else◌, Option, none, some}
use xian_abci.Prelude.Bytes.{Bytes}
use xian_abci.Prelude.Int.{ℤ, pos, ◌-ℤ◌, ltb_ℤ}
use xian_abci.Result.{Except, ok, err, type_error, attribute_error}
use xian_abci.Value.{Value, int, obj, end}
use xian_abci.Nonce.Storage.{Settings, Pending, reconcile_pending}
use xian_abci.StateRoot.Cache as Root
use xian_abci.StateRoot.Cache.{StateRootCache}
use xian_abci.Commit.Marker.{
  LatestBlock, Mirror, Database, stage_latest_block, try_write_latest_block,
}

module _ (text_of : Value → String) (database : Database) where
  pub record BlockMeta : Type 0 where
    pub height : ℤ
    pub nanos : ℤ

  -- The part of the application object that a commit reads and writes.
  pub record App : Type 0 where
    pub store : database.Store
    pub pending_commit_driver_state : Option database.Detached
    pub merkle_root_hash : Option Bytes
    pub current_block_meta : Option BlockMeta
    pub current_block_rewards : Value
    pub state_root_cache : StateRootCache
    pub pending_nonces : Pending
    pub mirror : Mirror
    pub pruning_enabled : Bool
    pub blocks_to_keep : ℤ

  abbrev pub restored : Option database.Detached → database.Store → database.Store
  restored none store = store
  restored (some staged_state) store = database.attach_pending_state staged_state store

  unfoldable pub restore_pending_commit_driver_state : App → App
  restore_pending_commit_driver_state app = record app {
    store = restored app.pending_commit_driver_state app.store;
    pending_commit_driver_state = none;
  }

  abbrev pub retain_height : App → ℤ → ℤ
  retain_height app height =
      if app.pruning_enabled && ltb_ℤ app.blocks_to_keep height
      then height -ℤ app.blocks_to_keep
      else pos 0

  module _ (settings : Settings) where
    -- After the database has been written; `now` has the readings of the clock.
    unfoldable pub finish :
        (String → ℤ) → Bool → BlockMeta → LatestBlock → App → database.Store → App
    finish now writable meta latest app store = record app {
      store = store;
      state_root_cache = Root.commit app.state_root_cache;
      pending_nonces =
          reconcile_pending settings (database.committed_nonce store) now app.pending_nonces;
      mirror = try_write_latest_block text_of writable latest app.mirror;
      merkle_root_hash = none;
      current_block_rewards = obj end;
      current_block_meta = none;
    }

    -- The write of the database. One that fails puts the batch back.
    abbrev pub apply_batch :
        (String → ℤ)
        → Bool
        → BlockMeta
        → LatestBlock
        → App
        → database.Batch
        → Except (Unit {0}) × database.Store
        → Except ℤ × App
    apply_batch now writable meta latest app batch (err e, store) = (
      err e,
      record app {
        store = database.set_pending batch (database.rollback (text_of (int meta.nanos)) store);
      },
    )
    apply_batch now writable meta latest app batch (ok _, store) =
        (ok (retain_height app meta.height), finish now writable meta latest app store)

    abbrev pub commit_staged :
        (String → ℤ)
        → Bool
        → BlockMeta
        → App
        → Except (LatestBlock × database.Store)
        → Except ℤ × App
    commit_staged now writable meta app (err e) = (err e, app)
    commit_staged now writable meta app (ok (latest, store)) =
        apply_batch now writable meta latest (record app { store = store }) (database.pending store)
          (database.hard_apply (text_of (int meta.nanos)) store)

    abbrev pub commit_block :
        (String → ℤ) → Bool → App → Option BlockMeta → Option Bytes → Except ℤ × App
    commit_block now writable app none merkle_root_hash = (err type_error, app)
    commit_block now writable app (some meta) none = (err attribute_error, app)
    commit_block now writable app (some meta) (some merkle_root_hash) =
        commit_staged now writable meta app
          (stage_latest_block text_of database merkle_root_hash meta.height meta.nanos app.store)

    -- The response is the height from which blocks are kept.
    unfoldable pub commit : (String → ℤ) → Bool → App → Except ℤ × App
    commit now writable app =
        let ready = restore_pending_commit_driver_state app in
        commit_block now writable ready ready.current_block_meta ready.merkle_root_hash
