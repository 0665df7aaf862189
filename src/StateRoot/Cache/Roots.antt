-- ===== src/StateRoot/Cache/Roots.antt =====
-- The app hash: a rollback brings the old root back, and the incremental root is the one that a
-- rebuild from the whole state gives.
use xian_abci.Prelude.{
  String, ◌≡◌, refl, sym, ◌∙◌, string_eq, if◌then◌else◌, arith, true, false, Option, none, some, [],
  ◌∷◌, Bool-cases, inl, inr, beq_refl, ap,
}
use xian_abci.Prelude.Bytes.{Bytes}
use xian_abci.Prelude.Dict.{Dict, lookup, contains, IsNodup}
use text.Mathlib.TextEquality.{eq_iff}
use xian_abci.StateRoot.Hashing.{is_consensus_state_key, hash_leaf}
use xian_abci.StateRoot.Cache.{
  StateRootCache, empty_cache, root_hash, set_leaf_hash, rollback, new_leaf_hash, prepare, Rebuilt,
  rebuilt, rebuild_items, rebuild, undo, merkle_root_from_items,
}
use xian_abci.StateRoot.Cache.Coherence.{
  IsCoherent, empty-IsCoherent, lookup-set_leaf_hash, set_leaf_hash-IsCoherent, rollback-IsCoherent,
  NoCollision, root_hash_canonical,
}
use xian_abci.StateRoot.Cache.Staging.{prepare-IsCoherent, prepare-leaves, rollback-prepare-leaves}

empty_leaf : (i : String) → lookup i empty_cache.leaf_hashes ≡ none
unfolding lookup
empty_leaf i = refl

module _ {ℓ} {V : Type ℓ} (sha256 : Bytes → Bytes) (index_separator : String)
    (encode_abci_json : V → Bytes) where
  -- A block that is prepared on a coherent cache and then rolled back leaves the root hash, and the
  -- leaf hash of every key, that the cache had before it, its staged writes undone. The keys of the
  -- block's writes differ, and no two keys of the old table have one priority.
  pub rollback-prepare :
      (c : StateRootCache) (writes : Dict String (Option V))
      → IsCoherent sha256 c
      → IsNodup writes
      → NoCollision sha256 (rollback sha256 c).leaf_hashes
      → let back = rollback sha256 (prepare sha256 index_separator encode_abci_json c writes) in
        (root_hash sha256 back ≡ root_hash sha256 (rollback sha256 c))
        × ((i : String) → lookup i back.leaf_hashes ≡ lookup i (rollback sha256 c).leaf_hashes)
  rollback-prepare c writes h once distinct =
      let prepared = prepare sha256 index_separator encode_abci_json c writes in
      let same = λ (i : String).
        rollback-prepare-leaves sha256 index_separator encode_abci_json c writes i once in
      (
        sym (
            root_hash_canonical sha256 (rollback sha256 c) (rollback sha256 prepared) distinct
              (rollback-IsCoherent sha256 c h)
              (rollback-IsCoherent sha256 prepared
                (prepare-IsCoherent sha256 index_separator encode_abci_json c writes h))
              (λ i. sym (same i))),
        same,
      )

  -- The leaf hash that a state gives a key.
  abbrev pub state_leaf : Dict String (Option V) → String → Option Bytes
  state_leaf state i =
      if is_consensus_state_key index_separator i
      then (elim (lookup i state) [
        | none ↦ none
        | some v ↦ new_leaf_hash sha256 encode_abci_json i v
      ])
      else none

  -- The table holds the leaf hashes of the state.
  abbrev pub Represents : StateRootCache → Dict String (Option V) → Type 0
  Represents c state = (i : String) → lookup i c.leaf_hashes ≡ state_leaf state i

  -- What a rebuild ends with: the root of the cache it leaves, in which the items are added.
  abbrev Added : Dict String (Option V) → StateRootCache → Rebuilt × StateRootCache → Type 0
  Added items c (r, d) =
      (r ≡ rebuilt (root_hash sha256 d))
      × IsCoherent sha256 d
      × ((i : String)
          → lookup i d.leaf_hashes
            ≡ (elim (state_leaf items i) [ none ↦ lookup i c.leaf_hashes | some h ↦ some h ]))

  rebuild_items-Added :
      (items : Dict String (Option V)) (c : StateRootCache)
      → IsCoherent sha256 c
      → IsNodup items
      → ((i : String) → contains i items ≡ true → contains i c.leaf_hashes ≡ false)
      → Added items c (rebuild_items sha256 index_separator encode_abci_json items c)
  unfolding rebuild_items lookup
  rebuild_items-Added [] c h once new = (refl, h, λ i. ground arith)
  rebuild_items-Added ((key, none) ∷ items) c h once new =
      let ih : Added items c (rebuild_items sha256 index_separator encode_abci_json items c) =
        rebuild_items-Added items c h once.1 (λ i known. ground (arith, new i)) in
      (ih.0, ih.1, λ i. ground (arith, ih.2 i, eq_iff key i))
  rebuild_items-Added ((key, some v) ∷ items) c h once new =
      let absent : contains key c.leaf_hashes ≡ false = new key (rw (beq_refl key, contains)) in
      elim (Bool-cases (is_consensus_state_key index_separator key)) [
        | inl consensus ↦
            let leaf = hash_leaf sha256 encode_abci_json key v in
            let c' = set_leaf_hash sha256 c key (some leaf) in
            let ih : Added items c'
                (rebuild_items sha256 index_separator encode_abci_json items c') =
              rebuild_items-Added items c' (set_leaf_hash-IsCoherent sha256 c key (some leaf) h)
                once.1
                (λ i known.
                  ground (
                    arith,
                    new i,
                    eq_iff key i,
                    lookup-set_leaf_hash sha256 c key i (some leaf),
                  )) in
            rw (consensus, absent)
              (
                ih.0,
                ih.1,
                λ i.
                    ground (
                      arith,
                      ih.2 i,
                      eq_iff key i,
                      lookup-set_leaf_hash sha256 c key i (some leaf),
                    ),
              )
        | inr local ↦
            let ih : Added items c (rebuild_items sha256 index_separator encode_abci_json items c) =
              rebuild_items-Added items c h once.1 (λ i known. ground (arith, new i)) in
            rw local (ih.0, ih.1, λ i. ground (arith, ih.2 i, eq_iff key i))
      ]

  -- The state after a block's writes, read key by key.
  abbrev pub IsUpdate :
      Dict String (Option V) → Dict String (Option V) → Dict String (Option V) → Type ℓ
  IsUpdate state writes state' =
      (i : String)
      → lookup i state' ≡ (elim (lookup i writes) [ none ↦ lookup i state | some v ↦ some v ])

  -- The app hash that `prepare` computes from a block's writes is the root that a rebuild from the
  -- whole new state gives. The cache is coherent and stands for the old state, the keys of the
  -- writes differ and so do those of the new state, and no two keys of the new table have one
  -- priority.
  pub prepare-eq-rebuild :
      (c : StateRootCache) (state writes state' : Dict String (Option V))
      → IsCoherent sha256 c
      → Represents (rollback sha256 c) state
      → IsNodup writes
      → IsNodup state'
      → IsUpdate state writes state'
      → NoCollision sha256 (prepare sha256 index_separator encode_abci_json c writes).leaf_hashes
      → merkle_root_from_items sha256 index_separator encode_abci_json state'
        ≡ rebuilt (root_hash sha256 (prepare sha256 index_separator encode_abci_json c writes))
  unfolding merkle_root_from_items rebuild rollback undo
  prepare-eq-rebuild c state writes state' h stands once once' update distinct =
      let prepared = prepare sha256 index_separator encode_abci_json c writes in
      let whole = rebuild_items sha256 index_separator encode_abci_json state' empty_cache in
      let added : Added state' empty_cache whole =
        rebuild_items-Added state' empty_cache (empty-IsCoherent sha256) once'
          (λ i _. unfold lookup in refl) in
      added.0
      ∙ ap rebuilt (
          sym (
            root_hash_canonical sha256 prepared whole.1 distinct
              (prepare-IsCoherent sha256 index_separator encode_abci_json c writes h) added.1
              (λ i. ground (
                arith,
                prepare-leaves sha256 index_separator encode_abci_json c writes i once,
                stands i,
                update i,
                added.2 i,
                empty_leaf i,
              ))))
