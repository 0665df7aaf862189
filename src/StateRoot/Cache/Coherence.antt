-- ===== src/StateRoot/Cache/Coherence.antt =====
-- The cache is coherent: its treap stands for its table of leaf hashes.
use xian_abci.Prelude.{
  String, ◌≡◌, refl, sym, ◌∙◌, ◌==◌, string_eq, if◌then◌else◌, true, Option, none, some, [], ◌∷◌,
}
use xian_abci.Prelude.Bytes.{Bytes}
use xian_abci.Prelude.Dict.{Dict, lookup, contains, lookup-insert, lookup-erase}
use xian_abci.StateRoot.Treap.{find}
use xian_abci.StateRoot.Treap.Order.{IsTreap, AllKeys-map, delete-IsTreap}
use xian_abci.StateRoot.Treap.Insertion.{insert-IsTreap}
use xian_abci.StateRoot.Treap.Find.{find-insert, find-delete}
use xian_abci.StateRoot.Treap.Canonical.{Distinct, AllKeys-Found, treap_canonical}
use xian_abci.StateRoot.Cache.{
  StateRootCache, empty_cache, root_hash, set_leaf_hash, undo, rollback,
}

module _ (sha256 : Bytes → Bytes) where
  pub record IsCoherent (c : StateRootCache) : Type 0 where
    pub tree : IsTreap sha256 c.root
    pub agrees : (i : String) → find i c.root ≡ lookup i c.leaf_hashes

  pub empty-IsCoherent : IsCoherent empty_cache
  unfolding find lookup
  empty-IsCoherent = record { tree = tt; agrees = λ i. refl }

  pub lookup-set_leaf_hash :
      (c : StateRootCache) (key i : String) (v : Option Bytes)
      → lookup i (set_leaf_hash sha256 c key v).leaf_hashes
        ≡ (if key == i then v else lookup i c.leaf_hashes)
  unfolding set_leaf_hash
  lookup-set_leaf_hash c key i none = lookup-erase key i c.leaf_hashes
  lookup-set_leaf_hash c key i (some v) = lookup-insert key i v c.leaf_hashes

  -- Writing or dropping a leaf hash keeps the cache coherent: the tree keeps its invariant, and the
  -- search in it finds what the table of leaf hashes has at every key.
  pub set_leaf_hash-IsCoherent :
      (c : StateRootCache) (key : String) (v : Option Bytes)
      → IsCoherent c
      → IsCoherent (set_leaf_hash sha256 c key v)
  unfolding set_leaf_hash
  set_leaf_hash-IsCoherent c key none h = record {
    tree = delete-IsTreap sha256 c.root key h.tree;
    agrees = λ i.
        rw (find-delete sha256 c.root key i h.tree, h.agrees i)
          (sym (lookup-erase key i c.leaf_hashes));
  }
  set_leaf_hash-IsCoherent c key (some v) h = record {
    tree = insert-IsTreap sha256 c.root key v h.tree;
    agrees = λ i.
        rw (find-insert sha256 c.root key i v h.tree, h.agrees i)
          (sym (lookup-insert key i v c.leaf_hashes));
  }

  pub undo-IsCoherent :
      (staged : Dict String (Option Bytes)) (c : StateRootCache)
      → IsCoherent c
      → IsCoherent (undo sha256 staged c)
  unfolding undo
  undo-IsCoherent [] c h = h
  undo-IsCoherent ((key, old) ∷ staged) c h =
      set_leaf_hash-IsCoherent (undo sha256 staged c) key old (undo-IsCoherent staged c h)

  pub rollback-IsCoherent : (c : StateRootCache) → IsCoherent c → IsCoherent (rollback sha256 c)
  unfolding rollback
  rollback-IsCoherent c h =
      let u = undo-IsCoherent c.staged_old_leaf_hashes c h in
      record { tree = u.tree; agrees = u.agrees }

  -- No two keys of the table have one priority.
  abbrev pub NoCollision : Dict String Bytes → Type 0
  NoCollision leaves = Distinct sha256 (λ i. contains i leaves ≡ true)

  -- Two coherent caches with the same leaf hashes hold the same treap, whatever their histories.
  pub root_canonical :
      (c d : StateRootCache)
      → NoCollision c.leaf_hashes
      → IsCoherent c
      → IsCoherent d
      → ((i : String) → lookup i c.leaf_hashes ≡ lookup i d.leaf_hashes)
      → c.root ≡ d.root
  root_canonical c d distinct h k same =
      treap_canonical sha256 (λ i. contains i c.leaf_hashes ≡ true) distinct c.root d.root h.tree
        k.tree
        (AllKeys-map _ _ (λ i f. rw (sym (h.agrees i) ∙ f.1, contains)) c.root
          (AllKeys-Found sha256 c.root h.tree))
        (λ i. h.agrees i ∙ (same i ∙ sym (k.agrees i)))

  -- Two coherent caches that hold the same leaf hash at every key have the same root hash, whatever
  -- their histories, where no two keys of the table have one priority.
  pub root_hash_canonical :
      (c d : StateRootCache)
      → NoCollision c.leaf_hashes
      → IsCoherent c
      → IsCoherent d
      → ((i : String) → lookup i c.leaf_hashes ≡ lookup i d.leaf_hashes)
      → root_hash sha256 c ≡ root_hash sha256 d
  unfolding root_hash
  root_hash_canonical c d distinct h k same = rw (root_canonical c d distinct h k same)
