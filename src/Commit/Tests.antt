-- ===== src/Commit/Tests.antt =====
-- src/xian/methods/commit.py over a database in memory, which refuses to write when it is full.
use xian_abci.Prelude.{
  String, ◌≡◌, refl, sym, ◌∙◌, ap, Bool, true, false, Option, none, some, [], ◌∷◌, ◌++◌, string_eq,
  beq_refl, arith,
}
use xian_abci.Prelude.Dict.{Dict, lookup, insert}
use xian_abci.Prelude.Int.{pos}
use xian_abci.Result.{Except, ok, err, Failure, foreign}
use xian_abci.Value.{Value, null, obj, end}
use xian_abci.Encoding.{hex}
use xian_abci.Nonce.Storage.{Settings}
use xian_abci.StateRoot.Cache.{empty_cache}
use xian_abci.Commit.Marker.{LatestBlock, unreadable, mirrored, Database}
use xian_abci.Commit.{BlockMeta, App, commit}
use xian_abci.Commit.Durable.{Atomic, Committed, commit-Committed}

record Disk : Type 0 where
  written : Dict String Value
  batch : Dict String Value
  full : Bool

abbrev value_or_none : Option Value → Value
value_or_none none = null
value_or_none (some v) = v

abbrev write : Bool → Disk → Except (Unit {0}) × Disk
write true store = (err (foreign "LMDBError"), record store { batch = [] })
write false store = (ok tt, record store { written = store.batch ++ store.written; batch = [] })

abbrev database : Database
database = record {
  Store = Disk;
  Batch = Dict String Value;
  Detached = Dict String Value;
  attach_pending_state = λ staged store. record store { batch = staged };
  apply_write = λ key v store. record store { batch = insert key v store.batch };
  pending = λ store. store.batch;
  set_pending = λ batch store. record store { batch = batch };
  hard_apply = λ nanos store. write store.full store;
  rollback = λ nanos store. record store { batch = [] };
  value_from_disk = λ key store. value_or_none (lookup key store.written);
  committed_nonce = λ store sender. none;
}

-- What has been inserted comes before what was there.
lookup-inserted :
    (key : String) (v : Value) (batch written : Dict String Value)
    → lookup key (insert key v batch ++ written) ≡ some v
unfolding insert lookup
lookup-inserted key v [] written = ground (arith, beq_refl key)
lookup-inserted key v ((j, w) ∷ batch) written =
    ground (arith, beq_refl key, string_eq.same_iff j key, lookup-inserted key v batch written)

write-ok :
    (key : String) (v : Value) (full : Bool) (store after : Disk)
    → write full (record store { batch = insert key v store.batch }) ≡ (ok tt, after)
    → value_or_none (lookup key after.written) ≡ v
write-ok key v true store after h = cc
write-ok key v false store after h =
    ap (λ r. value_or_none (lookup key r.1.written)) (sym h)
    ∙ ap value_or_none (lookup-inserted key v store.batch store.written)

write-err :
    (key : String) (full : Bool) (store after : Disk) {e : Failure}
    → write full store ≡ (err e, after)
    → value_or_none (lookup key after.written) ≡ value_or_none (lookup key store.written)
write-err key true store after h = ap (λ r. value_or_none (lookup key r.1.written)) (sym h)
write-err key false store after h = cc

laws : Atomic database
laws = record {
  disk-hard_apply = λ key nanos v store after h. write-ok key v store.full store after h;
  disk-failed = λ key nanos store after h. write-err key store.full store after h;
  disk-rollback = λ key nanos store. refl;
  disk-set_pending = λ key batch store. refl;
  disk-apply_write = λ key written v store. refl;
  disk-attach = λ key staged store. refl;
  pending-set = λ batch store. refl;
}

abbrev settings : Settings
settings = record { reservation_ttl_seconds = pos 60; max_pending_nonces_per_sender = 8 }

abbrev text_of : Value → String
text_of v = "17"

abbrev meta : BlockMeta text_of database
meta = record { height = pos 12; nanos = pos 17 }

abbrev app : App text_of database
app = record {
  store = record { written = []; batch = []; full = false };
  pending_commit_driver_state = some (("con.x", null) ∷ []);
  merkle_root_hash = some (171 ∷ 7 ∷ []);
  current_block_meta = some meta;
  current_block_rewards = obj end;
  state_root_cache = empty_cache;
  pending_nonces = [];
  mirror = unreadable;
  pruning_enabled = true;
  blocks_to_keep = pos 10;
}

untold : mirrored text_of unreadable ≡ ok none
unfolding mirrored
untold = refl

abbrev latest : LatestBlock
latest = record { hash = hex (171 ∷ 7 ∷ []); height = pos 12; nanos = pos 17 }

commit-Committed_example :
    Committed text_of database laws "con.x" true app latest
      (171 ∷ 7 ∷ [])
      (commit text_of database settings (λ sender. pos 3) false app)
commit-Committed_example =
    commit-Committed text_of database laws settings "con.x" true false (λ sender. pos 3) app meta
      (171 ∷ 7 ∷ []) none refl refl (omega arith, (omega arith, tt)) untold
