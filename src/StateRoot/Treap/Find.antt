-- ===== src/StateRoot/Treap/Find.antt =====
-- The search in a treap after each update: the treap is a map from keys to leaf hashes.
use xian_abci.Prelude.{
  ℕ, String, ◌≡◌, refl, ◌==◌, string_eq, if◌then◌else◌, arith, true, false, Bool-cases, none, some,
  inl, inr,
}
use text.Mathlib.TextEquality.{eq_iff}
use xian_abci.Prelude.Text.{text_ltb, text_ltb_irrefl, text_ltb_trans}
use xian_abci.Prelude.Bytes.{Bytes}
use xian_abci.StateRoot.Treap.{
  Treap, empty, node, find, insert_or_update, settle_left, settle_right, merge, delete,
}
use xian_abci.StateRoot.Treap.Order.{
  AllKeys, AllKeys-map, AllKeys-insert, Left, Right, IsTreap, text_ltb-flip,
}

abbrev Before : String → String → Type 0
Before k j = text_ltb j k ≡ true

abbrev After : String → String → Type 0
After k j = text_ltb k j ≡ true

-- What is found has the properties of all keys.
pub find-AllKeys :
    (P : String → Type 0) (t : Treap) (i : String) (v : Bytes)
    → AllKeys P t
    → find i t ≡ some v
    → P i
unfolding find
find-AllKeys P empty i v a h = cc
find-AllKeys P (node k p g l r root) i v a h = elim (Bool-cases (i == k)) [
  | inl e ↦ rw ((eq_iff i k).0 e) a.0
  | inr ne ↦ elim (Bool-cases (text_ltb i k)) [
    | inl lt ↦ find-AllKeys P l i v a.1 (ground arith)
    | inr ge ↦ find-AllKeys P r i v a.2 (ground arith)
  ]
]

find-none : (P : String → Type 0) (t : Treap) (i : String) → AllKeys P t → ¬ P i → find i t ≡ none
unfolding find
find-none P empty i a no_p = refl
find-none P (node k p g l r root) i a no_p = elim (Bool-cases (i == k)) [
  | inl e ↦ absurd (no_p (rw ((eq_iff i k).0 e) a.0))
  | inr ne ↦ ground (arith, find-none P l i a.1 no_p, find-none P r i a.2 no_p)
]

text_ltb_asym : (i j : String) → text_ltb i j ≡ true → ¬ (text_ltb j i ≡ true)
text_ltb_asym i j a b = cc (text_ltb_irrefl i, text_ltb_trans i j i a b)

-- A key before all keys of a tree, or after all of them, is not found.
pub find_below :
    (m : String) (t : Treap) (i : String)
    → AllKeys (After m) t
    → text_ltb m i ≡ false
    → find i t ≡ none
find_below m t i a h = find-none (After m) t i a (λ p. cc)

pub find_above :
    (m : String) (t : Treap) (i : String)
    → AllKeys (Before m) t
    → text_ltb i m ≡ false
    → find i t ≡ none
find_above m t i a h = find-none (Before m) t i a (λ p. cc)

pub text_ltb_lt-ge : (i j : String) → text_ltb i j ≡ true → text_ltb j i ≡ false
text_ltb_lt-ge i j h = elim (Bool-cases (text_ltb j i)) [
  | inl a ↦ absurd (text_ltb_asym i j h a)
  | inr b ↦ b
]

module _ (sha256 : Bytes → Bytes) where
  -- A rotation is invisible to a search.
  find-settle_left :
      (k : String) (p : ℕ) (h : Bytes) (l r : Treap) (root : Bytes) (i : String)
      → AllKeys (Before k) l
      → find i (settle_left sha256 k p h l r root) ≡ find i (node k p h l r root)
  unfolding find settle_left
  find-settle_left k p h empty r root i a = refl
  find-settle_left k p h (node j q g s t top) r root i a =
      ground (arith, eq_iff i j, eq_iff i k, eq_iff j k, text_ltb_irrefl k, text_ltb_trans i j k)

  find-settle_right :
      (k : String) (p : ℕ) (h : Bytes) (l r : Treap) (root : Bytes) (i : String)
      → AllKeys (After k) r
      → find i (settle_right sha256 k p h l r root) ≡ find i (node k p h l r root)
  unfolding find settle_right
  find-settle_right k p h l empty root i a = refl
  find-settle_right k p h l (node j q g s t top) root i a = ground (
    arith,
    eq_iff i j,
    eq_iff i k,
    eq_iff j k,
    text_ltb_irrefl k,
    text_ltb_irrefl j,
    text_ltb_trans i k j,
    text_ltb_trans k i k,
    text_ltb_trans k j k,
  )

  -- After an insertion into a treap that keeps the invariant, the search finds the new hash at the
  -- key, and what it found before at every other key.
  pub find-insert :
      (t : Treap) (key i : String) (v : Bytes)
      → IsTreap sha256 t
      → find i (insert_or_update sha256 t key v) ≡ (if key == i then some v else find i t)
  unfolding find insert_or_update
  find-insert empty key i v x = ground (arith, eq_iff key i, eq_iff i key)
  find-insert (node k p g l r root) key i v x = elim (Bool-cases (key == k)) [
    | inl e ↦ ground (arith, eq_iff key k, eq_iff key i, eq_iff i k)
    | inr ne ↦ elim (Bool-cases (text_ltb key k)) [
      | inl lt ↦ ground (
        arith,
        find-settle_left k p g (insert_or_update sha256 l key v) r root i (
            AllKeys-insert sha256 (Before k) l key v lt
              (AllKeys-map (Left sha256 k) _ (λ j a. a.0) l x.2)),
        find-insert l key i v x.4,
        eq_iff key k,
        eq_iff key i,
        eq_iff i k,
      )
      | inr ge ↦ ground (
        arith,
        find-settle_right k p g l (insert_or_update sha256 r key v) root i (
            AllKeys-insert sha256 (After k) r key v (text_ltb-flip key k ne ge)
              (AllKeys-map (Right sha256 k) _ (λ j a. a.0) r x.3)),
        find-insert r key i v x.5,
        eq_iff key k,
        eq_iff key i,
        eq_iff i k,
      )
    ]
  ]

  find-merge :
      (m : String) (t u : Treap) (i : String)
      → AllKeys (Before m) t
      → AllKeys (After m) u
      → find i (merge sha256 t u) ≡ (if text_ltb i m then find i t else find i u)
  unfolding find merge
  find-merge m empty u i a b = ground (arith, find_below m u i b, text_ltb_lt-ge i m)
  find-merge m (node k p h l r root) empty i a b =
      ground (arith, find_above m (node k p h l r root) i a)
  find-merge m (node k p h l r root) (node j q g s t top) i a b = ground (
    arith,
    find-merge m r (node j q g s t top) i a.2 b,
    find-merge m (node k p h l r root) s i a b.1,
    eq_iff i k,
    eq_iff i j,
    text_ltb_irrefl k,
    text_ltb_trans i k m,
    text_ltb_trans i m j,
    text_ltb_lt-ge m j b.0,
  )

  -- After a deletion from a treap that keeps the invariant, the search finds nothing at the key,
  -- and what it found before at every other key.
  pub find-delete :
      (t : Treap) (key i : String)
      → IsTreap sha256 t
      → find i (delete sha256 t key) ≡ (if key == i then none else find i t)
  unfolding find delete
  find-delete empty key i x = ground arith
  find-delete (node k p g l r root) key i x = elim (Bool-cases (key == k)) [
    | inl e ↦ ground (
      arith,
      find-merge k l r i (AllKeys-map (Left sha256 k) _ (λ j a. a.0) l x.2)
          (AllKeys-map (Right sha256 k) _ (λ j a. a.0) r x.3),
      find_below k r k (AllKeys-map (Right sha256 k) _ (λ j a. a.0) r x.3) (text_ltb_irrefl k),
      text_ltb_irrefl k,
      eq_iff key k,
      eq_iff key i,
      eq_iff i k,
    )
    | inr ne ↦ ground (
      arith,
      find-delete l key i x.4,
      find-delete r key i x.5,
      eq_iff key k,
      eq_iff key i,
      eq_iff i k,
    )
  ]
