-- ===== src/StateRoot/Treap/Canonical.antt =====
-- A treap is determined by the map that it stands for: the insertion history leaves no trace.
use xian_abci.Prelude.{ℕ, String, ◌≡◌, refl, sym, ◌∙◌, string_eq, arith, some, beq_refl}
use native.Mathlib.Nat.{le_antisymm, le_refl}
use text.Mathlib.TextEquality.{eq_iff}
use xian_abci.Prelude.Text.{text_ltb_irrefl}
use xian_abci.Prelude.Bytes.{Bytes}
use xian_abci.StateRoot.Hashing.{hash_priority}
use xian_abci.StateRoot.Treap.{Treap, empty, node, find}
use xian_abci.StateRoot.Treap.Order.{
  AllKeys, AllKeys-map, AllKeys-zip, AllKeys-least, Left, Right, IsTreap,
}
use xian_abci.StateRoot.Treap.Find.{find-AllKeys, find_below, find_above, text_ltb_lt-ge}

abbrev Found : Treap → String → Type 0
Found t i = (v : Bytes) × (find i t ≡ some v)

module _ (sha256 : Bytes → Bytes) where
  -- The priorities tell the keys of the class apart: no two of them collide under the hash.
  abbrev pub Distinct : (String → Type 0) → Type 0
  Distinct D = (i j : String) → D i → D j → hash_priority sha256 i ≡ hash_priority sha256 j → i ≡ j

  -- The search finds every key of the tree.
  pub AllKeys-Found : (t : Treap) → IsTreap sha256 t → AllKeys (Found t) t
  unfolding find
  AllKeys-Found empty x = tt
  AllKeys-Found (node k p h l r root) x = (
    (h, rw (beq_refl k)),
    AllKeys-zip (Left sha256 k) (Found l) _
        (λ i a f. (f.0, ground (arith, eq_iff i k, text_ltb_irrefl k, f.1))) l x.2
        (AllKeys-Found l x.4),
    AllKeys-zip (Right sha256 k) (Found r) _
        (λ i a f. (f.0, ground (arith, eq_iff i k, text_ltb_irrefl k, text_ltb_lt-ge k i a.0, f.1)))
        r x.3 (AllKeys-Found r x.5),
  )

  -- The subtrees of trees with one root key agree where the trees do.
  lower_subtrees_agree :
      (k j : String) (p q : ℕ) (h g : Bytes) (l r s t : Treap) (root top : Bytes) (i : String)
      → k ≡ j
      → AllKeys (Left sha256 k) l
      → AllKeys (Left sha256 j) s
      → find i (node k p h l r root) ≡ find i (node j q g s t top)
      → find i l ≡ find i s
  unfolding find
  lower_subtrees_agree k j p q h g l r s t root top i e a b same = ground (
    arith,
    eq_iff i k,
    eq_iff i j,
    text_ltb_irrefl k,
    find_above k l i (AllKeys-map (Left sha256 k) _ (λ i' c. c.0) l a),
    find_above j s i (AllKeys-map (Left sha256 j) _ (λ i' c. c.0) s b),
  )

  upper_subtrees_agree :
      (k j : String) (p q : ℕ) (h g : Bytes) (l r s t : Treap) (root top : Bytes) (i : String)
      → k ≡ j
      → AllKeys (Right sha256 k) r
      → AllKeys (Right sha256 j) t
      → find i (node k p h l r root) ≡ find i (node j q g s t top)
      → find i r ≡ find i t
  unfolding find
  upper_subtrees_agree k j p q h g l r s t root top i e a b same = ground (
    arith,
    eq_iff i k,
    eq_iff i j,
    text_ltb_irrefl k,
    text_ltb_lt-ge i k,
    text_ltb_lt-ge k i,
    find_below k r i (AllKeys-map (Right sha256 k) _ (λ i' c. c.0) r a),
    find_below j t i (AllKeys-map (Right sha256 j) _ (λ i' c. c.0) t b),
  )

  same_root :
      (D : String → Type 0)
      → Distinct D
      → (k j : String) (p q : ℕ) (h g : Bytes) (l r s t : Treap) (root top : Bytes)
      → IsTreap sha256 (node k p h l r root)
      → IsTreap sha256 (node j q g s t top)
      → AllKeys D (node k p h l r root)
      → ((i : String) → find i (node k p h l r root) ≡ find i (node j q g s t top))
      → k ≡ j
  same_root D distinct k j p q h g l r s t root top x y a same =
      let first = node k p h l r root in
      let second = node j q g s t top in
      let in_first : find j first ≡ some g = same j ∙ unfold find in rw (beq_refl j) in
      let in_second : find k second ≡ some h = sym (same k) ∙ unfold find in rw (beq_refl k) in
      distinct k j a.0 (find-AllKeys D first j g a in_first) (
        le_antisymm
          (find-AllKeys _ first j g
            (AllKeys-least sha256 (hash_priority sha256 k) k p h l r root (le_refl _) x) in_first)
          (find-AllKeys _ second k h
            (AllKeys-least sha256 (hash_priority sha256 j) j q g s t top (le_refl _) y) in_second))

  -- Two treaps that keep the invariant and agree at every key are equal, hashes included, where no
  -- two keys of the first one have the same priority.
  pub treap_canonical :
      (D : String → Type 0)
      → Distinct D
      → (t u : Treap) → IsTreap sha256 t
      → IsTreap sha256 u
      → AllKeys D t
      → ((i : String) → find i t ≡ find i u)
      → t ≡ u
  unfolding find
  treap_canonical D distinct empty empty x y a same = refl
  treap_canonical D distinct empty (node j q g s t top) x y a same =
      ground (arith, same j, beq_refl j)
  treap_canonical D distinct (node k p h l r root) empty x y a same =
      ground (arith, same k, beq_refl k)
  treap_canonical D distinct (node k p h l r root) (node j q g s t top) x y a same =
      let e : k ≡ j = same_root D distinct k j p q h g l r s t root top x y a same in
      cc (
        e,
        x.0,
        y.0,
        x.1,
        y.1,
        same k,
        beq_refl k,
        treap_canonical D distinct l s x.4 y.4 a.1
            (λ i. lower_subtrees_agree k j p q h g l r s t root top i e x.2 y.2 (same i)),
        treap_canonical D distinct r t x.5 y.5 a.2
            (λ i. upper_subtrees_agree k j p q h g l r s t root top i e x.3 y.3 (same i)),
      )
