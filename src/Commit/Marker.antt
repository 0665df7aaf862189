-- ===== src/Commit/Marker.antt =====
-- src/xian/utils/block.py and src/xian/methods/info.py: the marker of the latest block in the
-- database and its JSON mirror. The driver of the database and the file system are parameters.
use xian_abci.Prelude.{String, Bool, ◌&&◌, if◌then◌else◌, ◌==◌, string_eq, Option, none, some}
use xian_abci.Prelude.Bytes.{Bytes}
use xian_abci.Prelude.Int.{ℤ, pos, int_eq}
use xian_abci.Result.{Except, ok, err, value_error, type_error, attribute_error, ◌>>=◌}
use xian_abci.Value.{Value, null, int, str, obj, Fields, end, field, truth, to_int, get_field}
use xian_abci.Value.Number.{codes}
use xian_abci.Encoding.{hex, from_hex}

abbrev pub latest_block_key : String
latest_block_key = "__latest_block"

pub record LatestBlock : Type 0 where
  pub hash : String
  pub height : ℤ
  pub nanos : ℤ

abbrev pub latest_block_default : LatestBlock
latest_block_default = record { hash = ""; height = pos 0; nanos = pos 0 }

-- The dict of a normalized block.
abbrev pub block_dict : LatestBlock → Value
block_dict latest = obj (
    field "hash" (str latest.hash)
      (field "height" (int latest.height) (field "nanos" (int latest.nanos) end)))

abbrev pub same_block : LatestBlock → LatestBlock → Bool
same_block a b = (a.hash == b.hash) && (a.height == b.height) && (a.nanos == b.nanos)

-- `v or 0`
abbrev pub or_zero : Value → Value
or_zero v = if truth v then v else int (pos 0)

-- The compatibility mirror: a file that cannot be read or parsed, or its JSON value.
pub data Mirror : Type 0 where
  unreadable : Mirror
  json : Value → Mirror

-- The driver with the database behind it.
pub record Database : Type 1 where
  pub Store : Type 0
  -- `pending_writes` and `pending_reads`
  pub Batch : Type 0
  -- the pending state that a finalized block leaves
  pub Detached : Type 0
  pub attach_pending_state : Detached → Store → Store
  pub apply_write : String → Value → Store → Store
  pub pending : Store → Batch
  pub set_pending : Batch → Store → Store
  pub hard_apply : String → Store → Except (Unit {0}) × Store
  pub rollback : String → Store → Store
  -- what is durable at a key, `None` where nothing is
  pub value_from_disk : String → Store → Value
  pub committed_nonce : Store → String → Option ℤ

-- `str(v)`, for a value that is no text.
module _ (text_of : Value → String) where
  abbrev pub shown : Value → String
  shown (str s) = s
  shown v = text_of v

  -- `str(v or "")`
  abbrev pub text_or_empty : Value → String
  text_or_empty v = if truth v then shown v else ""

  unfoldable pub normalize_latest_block : Fields → Except LatestBlock
  normalize_latest_block latest_block = do
    height ← to_int (or_zero (get_field "height" latest_block))
    nanos ← to_int (or_zero (get_field "nanos" latest_block))
    ok (record {
      hash = text_or_empty (get_field "hash" latest_block);
      height = height;
      nanos = nanos;
    })

  -- An app hash that is no hexadecimal text is refused.
  abbrev pub checked : LatestBlock → Except (Option LatestBlock)
  checked latest = do app_hash ← from_hex (codes latest.hash); ok (some latest)

  abbrev pub committed_of : Value → Except (Option LatestBlock)
  committed_of null = ok none
  committed_of (obj latest_block) = do latest ← normalize_latest_block latest_block; checked latest
  committed_of _ = err value_error

  abbrev pub or_default : Option LatestBlock → LatestBlock
  or_default none = latest_block_default
  or_default (some latest) = latest

  -- `ValueError` and `TypeError` count as no mirror; what else the normalization raises goes on.
  abbrev pub caught : Except LatestBlock → Except (Option LatestBlock)
  caught (ok latest) = ok (some latest)
  caught (err value_error) = ok none
  caught (err type_error) = ok none
  caught (err e) = err e

  unfoldable pub mirrored : Mirror → Except (Option LatestBlock)
  mirrored unreadable = ok none
  mirrored (json (obj latest_block)) = caught (normalize_latest_block latest_block)
  mirrored (json _) = err attribute_error

  -- `try_write_latest_block`: the mirror is left as it is where the file cannot be written.
  abbrev pub try_write_latest_block : Bool → LatestBlock → Mirror → Mirror
  try_write_latest_block writable latest mirror =
      if writable then json (block_dict latest) else mirror

  abbrev pub repair : Bool → LatestBlock → Option LatestBlock → Mirror → Mirror
  repair writable committed none mirror = try_write_latest_block writable committed mirror
  repair writable committed (some latest) mirror =
      if same_block latest committed
      then mirror
      else try_write_latest_block writable committed mirror

  module _ (database : Database) where
    unfoldable pub load_committed_latest_block : database.Store → Except (Option LatestBlock)
    load_committed_latest_block store =
        committed_of (database.value_from_disk latest_block_key store)

    unfoldable pub reconcile_latest_block :
        Bool → database.Store → Mirror → Except (LatestBlock × Mirror)
    reconcile_latest_block writable store mirror = do
      found ← load_committed_latest_block store
      let committed = or_default found
      latest ← mirrored mirror
      ok (committed, repair writable committed latest mirror)

    pub record ResponseInfo : Type 0 where
      pub last_block_height : ℤ
      pub last_block_app_hash : Bytes

    unfoldable pub info : Bool → database.Store → Mirror → Except (ResponseInfo × Mirror)
    info writable store mirror = do
      reconciled ← reconcile_latest_block writable store mirror
      app_hash ← from_hex (codes reconciled.0.hash)
      ok (
        record { last_block_height = reconciled.0.height; last_block_app_hash = app_hash },
        reconciled.1,
      )

    unfoldable pub stage_latest_block :
        Bytes → ℤ → ℤ → database.Store → Except (LatestBlock × database.Store)
    stage_latest_block block_hash height nanos store = do
      latest ← normalize_latest_block (
          field "hash" (str (hex block_hash))
            (field "height" (int height) (field "nanos" (int nanos) end)))
      ok (latest, database.apply_write latest_block_key (block_dict latest) store)
