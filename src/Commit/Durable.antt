-- ===== src/Commit/Durable.antt =====
-- What a commit of src/xian/methods/commit.py makes durable, as src/xian/methods/info.py reports it
-- after a restart, and what a commit that fails leaves.
use mathlib.Core.Path.{subst}
use xian_abci.Prelude.{
  ap₂, String, ◌≡◌, refl, sym, ◌∙◌, ap, Bool, true, false, Option, none, some, ◌==◌, string_eq,
  Bool-cases, inl, inr,
}
use xian_abci.Prelude.Bytes.{Bytes}
use xian_abci.Prelude.Int.{ℤ, pos, eqb_ℤ, int_eq}
use xian_abci.Result.{Except, ok, err, Failure}
use xian_abci.Value.{Value, int, str, end, field, truth, to_int, lookup_field}
use xian_abci.Encoding.{hex}
use xian_abci.Encoding.RoundTrip.{AreBytes, from_hex-hexlify, codes-hex}
use xian_abci.Nonce.Storage.{Settings}
use xian_abci.Commit.Marker.{
  latest_block_key, LatestBlock, block_dict, or_zero, Mirror, Database, text_or_empty,
  normalize_latest_block, mirrored, repair, try_write_latest_block, load_committed_latest_block,
  reconcile_latest_block, info, stage_latest_block, caught,
}
use xian_abci.Commit.{
  BlockMeta, App, restored, restore_pending_commit_driver_state, apply_batch, commit_staged, finish,
  commit_block, commit,
}

-- What the driver promises: a write of the database is all or nothing, and nothing else is durable.
pub record Atomic (database : Database) : Type 0 where
  pub disk-hard_apply :
      (key nanos : String) (v : Value) (store after : database.Store)
      → database.hard_apply nanos (database.apply_write key v store) ≡ (ok tt, after)
      → database.value_from_disk key after ≡ v
  pub disk-failed :
      (key nanos : String) (store after : database.Store) {e : Failure}
      → database.hard_apply nanos store ≡ (err e, after)
      → database.value_from_disk key after ≡ database.value_from_disk key store
  pub disk-rollback :
      (key nanos : String) (store : database.Store)
      → database.value_from_disk key (database.rollback nanos store)
        ≡ database.value_from_disk key store
  pub disk-set_pending :
      (key : String) (batch : database.Batch) (store : database.Store)
      → database.value_from_disk key (database.set_pending batch store)
        ≡ database.value_from_disk key store
  pub disk-apply_write :
      (key written : String) (v : Value) (store : database.Store)
      → database.value_from_disk key (database.apply_write written v store)
        ≡ database.value_from_disk key store
  pub disk-attach :
      (key : String) (staged : database.Detached) (store : database.Store)
      → database.value_from_disk key (database.attach_pending_state staged store)
        ≡ database.value_from_disk key store
  pub pending-set :
      (batch : database.Batch) (store : database.Store)
      → database.pending (database.set_pending batch store) ≡ batch

module _ (text_of : Value → String) where
  to_int-or_zero : (i : ℤ) → to_int (or_zero (int i)) ≡ ok i
  unfolding to_int truth
  to_int-or_zero i = elim (Bool-cases (eqb_ℤ i (pos 0))) [
    | inl e ↦ rw (e, (int_eq.same_iff i (pos 0)).0 e) refl
    | inr e ↦ rw e refl
  ]

  text_or_empty-str : (s : String) → text_or_empty text_of (str s) ≡ s
  unfolding truth
  text_or_empty-str s = elim (Bool-cases (s == "")) [
    | inl e ↦ rw e (sym ((string_eq.same_iff s "").0 e))
    | inr e ↦ rw e refl
  ]

  -- The dict of a block is normalized to the block.
  normalize-fields :
      (hash : String) (height nanos : ℤ)
      → normalize_latest_block text_of
          (field "hash" (str hash) (field "height" (int height) (field "nanos" (int nanos) end)))
        ≡ ok (record { hash = hash; height = height; nanos = nanos })
  unfolding normalize_latest_block lookup_field
  normalize-fields hash height nanos =
      rw (to_int-or_zero height, to_int-or_zero nanos, text_or_empty-str hash) refl

  module _ (database : Database) (laws : Atomic database) where
    -- A mirror that has been written, or left as it was.
    mirrored-written :
        (writable : Bool) (mirror : Mirror) (latest : LatestBlock) {found : Option LatestBlock}
        → mirrored text_of mirror ≡ ok found
        → (after : Option LatestBlock) × (mirrored text_of
              (try_write_latest_block text_of writable latest mirror)
            ≡ ok after)
    unfolding mirrored
    mirrored-written true mirror latest told =
        (some latest, ap (caught text_of) (normalize-fields latest.hash latest.height latest.nanos))
    mirrored-written false mirror latest {found} told = (found, told)

    -- The block that is durable is the one that `info` reports, if the mirror can be told.
    info-durable :
        (writable : Bool) (store : database.Store) (mirror : Mirror) (block_hash : Bytes)
        (height nanos : ℤ) {found : Option LatestBlock}
        → AreBytes block_hash
        → database.value_from_disk latest_block_key store
          ≡ block_dict (record { hash = hex block_hash; height = height; nanos = nanos })
        → mirrored text_of mirror ≡ ok found
        → (after : Mirror) × (info text_of database writable store mirror
            ≡ ok (record { last_block_height = height; last_block_app_hash = block_hash }, after))
    unfolding info reconcile_latest_block load_committed_latest_block
    info-durable writable store mirror block_hash height nanos {found} bytes durable told = (
      repair text_of writable (record { hash = hex block_hash; height = height; nanos = nanos })
          found mirror,
      rw
          (
            durable,
            normalize-fields (hex block_hash) height nanos,
            codes-hex block_hash bytes,
            from_hex-hexlify block_hash bytes,
            told,
            codes-hex block_hash bytes,
            from_hex-hexlify block_hash bytes,
          )
          refl,
    )

    stage-eq :
        (block_hash : Bytes) (height nanos : ℤ) (store : database.Store)
        → stage_latest_block text_of database block_hash height nanos store
          ≡ ok (
            record { hash = hex block_hash; height = height; nanos = nanos },
            database.apply_write latest_block_key
                (block_dict (record { hash = hex block_hash; height = height; nanos = nanos }))
                store,
          )
    unfolding stage_latest_block
    stage-eq block_hash height nanos store =
        rw (normalize-fields (hex block_hash) height nanos) refl

    disk-restored :
        (key : String) (staged : Option database.Detached) (store : database.Store)
        → database.value_from_disk key (restored text_of database staged store)
          ≡ database.value_from_disk key store
    disk-restored key none store = refl
    disk-restored key (some staged) store = laws.disk-attach key staged store

    -- The state with the writes of the block, and the marker of the block among them.
    abbrev pub staged_store : App text_of database → LatestBlock → database.Store
    staged_store app latest =
        database.apply_write latest_block_key (block_dict latest)
          (restored text_of database app.pending_commit_driver_state app.store)

    -- After a commit that has failed, the same block can be committed again: its writes are pending,
    -- and nothing else has changed, in the database or in memory.
    pub record IsKept (key : String) (app : App text_of database) (latest : LatestBlock)
        (after : App text_of database) : Type 0 where
      pub same_disk :
          database.value_from_disk key after.store ≡ database.value_from_disk key app.store
      pub same_batch : database.pending after.store ≡ database.pending (staged_store app latest)
      pub same_meta : after.current_block_meta ≡ app.current_block_meta
      pub same_root : after.merkle_root_hash ≡ app.merkle_root_hash
      pub same_cache : after.state_root_cache ≡ app.state_root_cache
      pub same_nonces : after.pending_nonces ≡ app.pending_nonces
      pub same_mirror : after.mirror ≡ app.mirror

    disk-staged_store :
        (key : String) (app : App text_of database) (latest : LatestBlock)
        → database.value_from_disk key (staged_store app latest)
          ≡ database.value_from_disk key app.store
    disk-staged_store key app latest =
        laws.disk-apply_write key latest_block_key (block_dict latest)
          (restored text_of database app.pending_commit_driver_state app.store)
        ∙ disk-restored key app.pending_commit_driver_state app.store

    -- What a commit leaves: what was there, or a block that `info` reports after a restart.
    abbrev pub Committed :
        String
        → Bool
        → App text_of database
        → LatestBlock
        → Bytes
        → Except ℤ × App text_of database
        → Type 0
    Committed key later app latest block_hash (err e, after) = IsKept key app latest after
    Committed key later app latest block_hash (ok retain_height, after) =
        (mirror : Mirror) × (info text_of database later after.store after.mirror
          ≡ ok (
            record { last_block_height = latest.height; last_block_app_hash = block_hash },
            mirror,
          ))

    module _ (settings : Settings) where
      apply_batch-Committed :
          (key : String) (later writable : Bool) (now : String → ℤ) (app : App text_of database)
          (meta : BlockMeta text_of database) (block_hash : Bytes) {found : Option LatestBlock}
          (r : Except (Unit {0}) × database.Store)
          → AreBytes block_hash
          → mirrored text_of app.mirror ≡ ok found
          → database.hard_apply (text_of (int meta.nanos)) (
              staged_store app
                (record { hash = hex block_hash; height = meta.height; nanos = meta.nanos }))
            ≡ r
          → Committed key later app
              (record { hash = hex block_hash; height = meta.height; nanos = meta.nanos })
              block_hash
              (apply_batch text_of database settings now writable meta
                (record { hash = hex block_hash; height = meta.height; nanos = meta.nanos })
                (record app {
                  store =
                      staged_store app (record {
                        hash = hex block_hash;
                        height = meta.height;
                        nanos = meta.nanos;
                      });
                  pending_commit_driver_state = none;
                })
                (database.pending (
                  staged_store app
                    (record { hash = hex block_hash; height = meta.height; nanos = meta.nanos })))
                r)
      unfolding finish
      apply_batch-Committed key later writable now app meta block_hash (err e, store) bytes told h =
          let latest : LatestBlock = record {
            hash = hex block_hash;
            height = meta.height;
            nanos = meta.nanos;
          } in
          let nanos = text_of (int meta.nanos) in
          let batch = database.pending (staged_store app latest) in
          record {
            same_disk =
                laws.disk-set_pending key batch (database.rollback nanos store)
                ∙ laws.disk-rollback key nanos store
                ∙ laws.disk-failed key nanos (staged_store app latest) store h
                ∙ disk-staged_store key app latest;
            same_batch = laws.pending-set batch (database.rollback nanos store);
            same_meta = refl;
            same_root = refl;
            same_cache = refl;
            same_nonces = refl;
            same_mirror = refl;
          }
      apply_batch-Committed key later writable now app meta block_hash (ok _, store) bytes told h =
          let latest : LatestBlock = record {
            hash = hex block_hash;
            height = meta.height;
            nanos = meta.nanos;
          } in
          let (found_after, told_after) = mirrored-written writable app.mirror latest told in
          info-durable later store (try_write_latest_block text_of writable latest app.mirror)
            block_hash meta.height meta.nanos bytes
            (laws.disk-hard_apply latest_block_key (text_of (int meta.nanos)) (block_dict latest)
              (restored text_of database app.pending_commit_driver_state app.store) store h)
            told_after

      -- Where the driver writes all of a block or nothing, and the mirror is no JSON value that
      -- stops `info`: a commit of a block with a height and an app hash either raises, and then the
      -- pending writes are those of the block with its marker, and the database, the block's
      -- metadata, the app hash, the state root cache, the reservations and the mirror are as they
      -- were; or it returns, and then `info` reports the height and the app hash of the block after
      -- a restart, whether or not the mirror could be written.
      pub commit-Committed :
          (key : String) (later writable : Bool) (now : String → ℤ) (app : App text_of database)
          (meta : BlockMeta text_of database) (block_hash : Bytes) (found : Option LatestBlock)
          → app.current_block_meta ≡ some meta
          → app.merkle_root_hash ≡ some block_hash
          → AreBytes block_hash
          → mirrored text_of app.mirror ≡ ok found
          → Committed key later app
              (record { hash = hex block_hash; height = meta.height; nanos = meta.nanos })
              block_hash
              (commit text_of database settings now writable app)
      unfolding commit restore_pending_commit_driver_state
      commit-Committed key later writable now app meta block_hash found has_meta has_hash bytes
            told =
          let latest : LatestBlock = record {
            hash = hex block_hash;
            height = meta.height;
            nanos = meta.nanos;
          } in
          let ready = restore_pending_commit_driver_state text_of database app in
          subst (Committed key later app latest block_hash)
            (sym (
              ap₂ (commit_block text_of database settings now writable ready) has_meta has_hash
              ∙ ap (commit_staged text_of database settings now writable meta ready) (
                  stage-eq block_hash meta.height meta.nanos
                    (restored text_of database app.pending_commit_driver_state app.store))))
            (apply_batch-Committed key later writable now app meta block_hash _ bytes told refl)
