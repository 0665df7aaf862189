-- ===== src/StateRoot/Cache/Staging.antt =====
-- What `prepare`, `rollback` and `rebuild` do to the table of leaf hashes and to the root.
use xian_abci.Prelude.{
  String, ◌≡◌, refl, ◌∙◌, ◌==◌, string_eq, if◌then◌else◌, ◌&&◌, arith, true, false, Option, none,
  some, [], ◌∷◌, if_both, beq_refl,
}
use xian_abci.Prelude.Bytes.{Bytes, option_bytes_eqb_iff}
use xian_abci.Prelude.Dict.{Dict, lookup, insert, contains, IsNodup, lookup-insert}
use text.Mathlib.TextEquality.{eq_iff}
use xian_abci.StateRoot.Hashing.{is_consensus_state_key}
use xian_abci.StateRoot.Cache.{
  StateRootCache, set_leaf_hash, undo, rollback, new_leaf_hash, prepare_write, prepare_writes,
  prepare,
}
use xian_abci.StateRoot.Cache.Coherence.{
  IsCoherent, lookup-set_leaf_hash, set_leaf_hash-IsCoherent, rollback-IsCoherent,
}

-- The hash that stands at a key once the staged old hashes are put back.
abbrev pub restored : Dict String (Option Bytes) → Dict String Bytes → String → Option Bytes
restored staged leaves i = elim (lookup i staged) [ none ↦ lookup i leaves | some old ↦ old ]

module _ (sha256 : Bytes → Bytes) where
  lookup-undo :
      (staged : Dict String (Option Bytes)) (c : StateRootCache) (i : String)
      → lookup i (undo sha256 staged c).leaf_hashes ≡ restored staged c.leaf_hashes i
  unfolding undo lookup
  lookup-undo [] c i = refl
  lookup-undo ((key, old) ∷ staged) c i =
      ground (
        arith,
        lookup-set_leaf_hash sha256 (undo sha256 staged c) key i old,
        lookup-undo staged c i,
      )

  pub lookup-rollback :
      (c : StateRootCache) (i : String)
      → lookup i (rollback sha256 c).leaf_hashes ≡ restored c.staged_old_leaf_hashes c.leaf_hashes i
  unfolding rollback
  lookup-rollback c i = lookup-undo c.staged_old_leaf_hashes c i

  module _ {ℓ} {V : Type ℓ} (index_separator : String) (encode_abci_json : V → Bytes) where
    -- The leaf hash at a key after a set of writes.
    abbrev pub written : Dict String (Option V) → Dict String Bytes → String → Option Bytes
    written writes leaves i =
        if is_consensus_state_key index_separator i
        then (elim (lookup i writes) [
          | none ↦ lookup i leaves
          | some v ↦ new_leaf_hash sha256 encode_abci_json i v
        ])
        else lookup i leaves

    prepare_write-leaves :
        (c : StateRootCache) (key i : String) (v : Option V)
        → lookup i (prepare_write sha256 index_separator encode_abci_json c key v).leaf_hashes ≡ (
            if is_consensus_state_key index_separator key && (key == i)
            then new_leaf_hash sha256 encode_abci_json key v
            else lookup i c.leaf_hashes)
    unfolding prepare_write
    prepare_write-leaves c key i v =
        let new = new_leaf_hash sha256 encode_abci_json key v in
        ground (
          arith,
          eq_iff key i,
          option_bytes_eqb_iff (lookup key c.leaf_hashes) new,
          lookup-set_leaf_hash sha256
              (record c {
                staged_old_leaf_hashes =
                    insert key (lookup key c.leaf_hashes) c.staged_old_leaf_hashes;
              })
              key i new,
        )

    staged-set_leaf_hash :
        (c : StateRootCache) (key : String) (v : Option Bytes)
        → (set_leaf_hash sha256 c key v).staged_old_leaf_hashes ≡ c.staged_old_leaf_hashes
    unfolding set_leaf_hash
    staged-set_leaf_hash c key none = refl
    staged-set_leaf_hash c key (some v) = refl

    -- A write stages the old hash of its own key and of no other.
    prepare_write-staged :
        (c : StateRootCache) (key i : String) (v : Option V)
        → (key == i) ≡ false
        → lookup i
            (prepare_write sha256 index_separator encode_abci_json c key v).staged_old_leaf_hashes
          ≡ lookup i c.staged_old_leaf_hashes
    unfolding prepare_write
    prepare_write-staged c key i v ne =
        let staged = insert key (lookup key c.leaf_hashes) c.staged_old_leaf_hashes in
        ground (
          arith,
          staged-set_leaf_hash (record c { staged_old_leaf_hashes = staged }) key
              (new_leaf_hash sha256 encode_abci_json key v),
          lookup-insert key i (lookup key c.leaf_hashes) c.staged_old_leaf_hashes,
        )

    -- What a rollback restores is not changed by a first write at a key.
    prepare_write-restored :
        (c : StateRootCache) (key i : String) (v : Option V)
        → lookup key c.staged_old_leaf_hashes ≡ none
        → let d = prepare_write sha256 index_separator encode_abci_json c key v in
          restored d.staged_old_leaf_hashes d.leaf_hashes i
          ≡ restored c.staged_old_leaf_hashes c.leaf_hashes i
    unfolding prepare_write
    prepare_write-restored c key i v fresh =
        let new = new_leaf_hash sha256 encode_abci_json key v in
        let staged = insert key (lookup key c.leaf_hashes) c.staged_old_leaf_hashes in
        let c' = record c { staged_old_leaf_hashes = staged } in
        ground (
          arith,
          eq_iff key i,
          staged-set_leaf_hash c' key new,
          lookup-set_leaf_hash sha256 c' key i new,
          lookup-insert key i (lookup key c.leaf_hashes) c.staged_old_leaf_hashes,
        )

    prepare_write-IsCoherent :
        (c : StateRootCache) (key : String) (v : Option V)
        → IsCoherent sha256 c
        → IsCoherent sha256 (prepare_write sha256 index_separator encode_abci_json c key v)
    unfolding prepare_write
    prepare_write-IsCoherent c key v h =
        let P = IsCoherent sha256 in
        if_both P _ c _ h (
          if_both P _ c _ h
            (set_leaf_hash-IsCoherent sha256 _ key _ (record { tree = h.tree; agrees = h.agrees })))

    -- None of the keys has a staged old hash.
    abbrev AllFresh : Dict String (Option V) → StateRootCache → Type 0
    AllFresh writes c =
        (i : String) → contains i writes ≡ true → lookup i c.staged_old_leaf_hashes ≡ none

    AllFresh-step :
        (c : StateRootCache) (key : String) (v : Option V) (writes : Dict String (Option V))
        → contains key writes ≡ false
        → AllFresh ((key, v) ∷ writes) c
        → AllFresh writes (prepare_write sha256 index_separator encode_abci_json c key v)
    unfolding lookup
    AllFresh-step c key v writes new fresh i known =
        ground (arith, eq_iff key i, prepare_write-staged c key i v, fresh i)

    prepare_writes-leaves :
        (writes : Dict String (Option V)) (c : StateRootCache) (i : String)
        → IsNodup writes
        → lookup i (prepare_writes sha256 index_separator encode_abci_json writes c).leaf_hashes
          ≡ written writes c.leaf_hashes i
    unfolding prepare_writes lookup
    prepare_writes-leaves [] c i once = ground arith
    prepare_writes-leaves ((key, v) ∷ writes) c i once =
        let d = prepare_write sha256 index_separator encode_abci_json c key v in
        ground (
          arith,
          eq_iff key i,
          prepare_writes-leaves writes d i once.1,
          prepare_write-leaves c key i v,
        )

    prepare_writes-restored :
        (writes : Dict String (Option V)) (c : StateRootCache) (i : String)
        → IsNodup writes
        → AllFresh writes c
        → let d = prepare_writes sha256 index_separator encode_abci_json writes c in
          restored d.staged_old_leaf_hashes d.leaf_hashes i
          ≡ restored c.staged_old_leaf_hashes c.leaf_hashes i
    unfolding prepare_writes
    prepare_writes-restored [] c i once fresh = refl
    prepare_writes-restored ((key, v) ∷ writes) c i once fresh =
        prepare_writes-restored writes
          (prepare_write sha256 index_separator encode_abci_json c key v) i once.1
          (AllFresh-step c key v writes once.0 fresh)
        ∙ prepare_write-restored c key i v
            (fresh key (unfold lookup in rw (beq_refl key, contains)))

    prepare_writes-IsCoherent :
        (writes : Dict String (Option V)) (c : StateRootCache)
        → IsCoherent sha256 c
        → IsCoherent sha256 (prepare_writes sha256 index_separator encode_abci_json writes c)
    unfolding prepare_writes
    prepare_writes-IsCoherent [] c h = h
    prepare_writes-IsCoherent ((key, v) ∷ writes) c h =
        prepare_writes-IsCoherent writes _ (prepare_write-IsCoherent c key v h)

    pub prepare-IsCoherent :
        (c : StateRootCache) (writes : Dict String (Option V))
        → IsCoherent sha256 c
        → IsCoherent sha256 (prepare sha256 index_separator encode_abci_json c writes)
    unfolding prepare
    prepare-IsCoherent c writes h =
        prepare_writes-IsCoherent writes (rollback sha256 c) (rollback-IsCoherent sha256 c h)

    pub prepare-leaves :
        (c : StateRootCache) (writes : Dict String (Option V)) (i : String)
        → IsNodup writes
        → lookup i (prepare sha256 index_separator encode_abci_json c writes).leaf_hashes
          ≡ written writes (rollback sha256 c).leaf_hashes i
    unfolding prepare
    prepare-leaves c writes i once = prepare_writes-leaves writes (rollback sha256 c) i once

    pub rollback-prepare-leaves :
        (c : StateRootCache) (writes : Dict String (Option V)) (i : String)
        → IsNodup writes
        → lookup i
            (rollback sha256 (prepare sha256 index_separator encode_abci_json c writes)).leaf_hashes
          ≡ lookup i (rollback sha256 c).leaf_hashes
    unfolding prepare
    rollback-prepare-leaves c writes i once =
        lookup-rollback (prepare sha256 index_separator encode_abci_json c writes) i
        ∙ (prepare_writes-restored writes (rollback sha256 c) i once
              (λ j _. unfold rollback lookup in refl)
            ∙ unfold rollback lookup in refl)
