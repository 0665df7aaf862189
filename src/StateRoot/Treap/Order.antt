-- ===== src/StateRoot/Treap/Order.antt =====
-- The invariant of the treap: search order by key, heap order by priority, stored priorities and
-- stored hashes up to date. A deletion keeps it.
use xian_abci.Prelude.{
  ℕ, String, ◌≤◌, ◌≡◌, refl, ltb, ◌==◌, string_eq, inl, inr, arith, true, false, Bool-cases,
}
use text.Mathlib.TextEquality.{eq_iff}
use xian_abci.Prelude.Text.{text_ltb, text_ltb_trans, text_ltb_total}
use xian_abci.Prelude.Bytes.{Bytes}
use xian_abci.StateRoot.Hashing.{hash_priority, hash_node}
use xian_abci.StateRoot.Treap.{
  Treap, empty, node, subtree_hash, insert_or_update, settle_left, settle_right, merge, delete,
}

pub text_ltb-flip : (j k : String) → (j == k) ≡ false → text_ltb j k ≡ false → text_ltb k j ≡ true
text_ltb-flip j k ne ge = ground (arith, eq_iff j k, text_ltb_total j k ge)

-- Every key of the tree has the property.
abbrev pub AllKeys : (String → Type 0) → Treap → Type 0
AllKeys P empty = Unit
AllKeys P (node k p h l r root) = P k × AllKeys P l × AllKeys P r

module _ (P Q R : String → Type 0) (f : (k : String) → P k → Q k → R k) where
  pub AllKeys-zip : (t : Treap) → AllKeys P t → AllKeys Q t → AllKeys R t
  AllKeys-zip empty a b = tt
  AllKeys-zip (node k p h l r root) a b =
      (f k a.0 b.0, AllKeys-zip l a.1 b.1, AllKeys-zip r a.2 b.2)

module _ (P Q : String → Type 0) (f : (k : String) → P k → Q k) where
  pub AllKeys-map : (t : Treap) → AllKeys P t → AllKeys Q t
  AllKeys-map empty a = tt
  AllKeys-map (node k p h l r root) a = (f k a.0, AllKeys-map l a.1, AllKeys-map r a.2)

module _ (sha256 : Bytes → Bytes) where
  -- The keys left of a node: smaller, and no more urgent than it.
  abbrev pub Left : String → String → Type 0
  Left k j = (text_ltb j k ≡ true) × (hash_priority sha256 k ≤ hash_priority sha256 j)

  abbrev pub Right : String → String → Type 0
  Right k j = (text_ltb k j ≡ true) × (hash_priority sha256 k ≤ hash_priority sha256 j)

  abbrev pub IsTreap : Treap → Type 0
  IsTreap empty = Unit
  IsTreap (node k p h l r root) =
      (p ≡ hash_priority sha256 k)
      × (root ≡ hash_node sha256 (subtree_hash sha256 l) h (subtree_hash sha256 r))
      × AllKeys (Left k) l
      × AllKeys (Right k) r
      × IsTreap l
      × IsTreap r

  AllKeys-settle_left :
      (P : String → Type 0) (k : String) (p : ℕ) (h : Bytes) (l r : Treap) (root : Bytes)
      → P k
      → AllKeys P l
      → AllKeys P r
      → AllKeys P (settle_left sha256 k p h l r root)
  unfolding settle_left
  AllKeys-settle_left P k p h empty r root a b c = (a, tt, c)
  AllKeys-settle_left P k p h (node j q g s t top) r root a b c = ground arith

  AllKeys-settle_right :
      (P : String → Type 0) (k : String) (p : ℕ) (h : Bytes) (l r : Treap) (root : Bytes)
      → P k
      → AllKeys P l
      → AllKeys P r
      → AllKeys P (settle_right sha256 k p h l r root)
  unfolding settle_right
  AllKeys-settle_right P k p h l empty root a b c = (a, b, tt)
  AllKeys-settle_right P k p h l (node j q g s t top) root a b c = ground arith

  pub AllKeys-insert :
      (P : String → Type 0) (t : Treap) (key : String) (v : Bytes)
      → P key
      → AllKeys P t
      → AllKeys P (insert_or_update sha256 t key v)
  unfolding insert_or_update
  AllKeys-insert P empty key v h a = (h, tt, tt)
  AllKeys-insert P (node k p g l r root) key v h a =
      let left = insert_or_update sha256 l key v in
      let right = insert_or_update sha256 r key v in
      elim (Bool-cases (key == k)) [
        | inl e ↦ rw e a
        | inr e ↦ rw e (elim (Bool-cases (text_ltb key k)) [
          | inl b ↦
              rw b
                (AllKeys-settle_left P k p g left r root a.0 (AllKeys-insert P l key v h a.1) a.2)
          | inr b ↦
              rw b
                (AllKeys-settle_right P k p g l right root a.0 a.1 (AllKeys-insert P r key v h a.2))
        ])
      ]

  pub AllKeys-merge :
      (P : String → Type 0) (t u : Treap) → AllKeys P t → AllKeys P u → AllKeys P (merge sha256 t u)
  unfolding merge
  AllKeys-merge P empty u a b = b
  AllKeys-merge P (node k p h l r root) empty a b = a
  AllKeys-merge P (node k p h l r root) (node j q g s t top) a b = ground (
    arith,
    AllKeys-merge P r (node j q g s t top) a.2 b,
    AllKeys-merge P (node k p h l r root) s a b.1,
  )

  pub AllKeys-delete :
      (P : String → Type 0) (t : Treap) (key : String)
      → AllKeys P t
      → AllKeys P (delete sha256 t key)
  unfolding delete
  AllKeys-delete P empty key a = tt
  AllKeys-delete P (node k p h l r root) key a =
      ground
        (arith, AllKeys-merge P l r a.1 a.2, AllKeys-delete P l key a.1, AllKeys-delete P r key a.2)

  -- The priority of the root is the least.
  pub AllKeys-least :
      (n : ℕ) (k : String) (p : ℕ) (h : Bytes) (l r : Treap) (root : Bytes)
      → n ≤ hash_priority sha256 k
      → IsTreap (node k p h l r root)
      → AllKeys (λ j. n ≤ hash_priority sha256 j) (node k p h l r root)
  AllKeys-least n k p h l r root le x = (
    le,
    AllKeys-map (Left k) _ (λ j a. omega (arith, a.1)) l x.2,
    AllKeys-map (Right k) _ (λ j a. omega (arith, a.1)) r x.3,
  )

  -- All of `t` lies before `m` and all of `u` after it.
  merge-IsTreap :
      (m : String) (t u : Treap)
      → AllKeys (λ j. text_ltb j m ≡ true) t
      → AllKeys (λ j. text_ltb m j ≡ true) u
      → IsTreap t
      → IsTreap u
      → IsTreap (merge sha256 t u)
  unfolding merge
  merge-IsTreap m empty u a b x y = y
  merge-IsTreap m (node k p h l r root) empty a b x y = x
  merge-IsTreap m (node k p h l r root) (node j q g s t top) a b x y =
      let first = node k p h l r root in
      let second = node j q g s t top in
      elim (Bool-cases (ltb p q)) [
        | inl lt ↦ rw lt (
          x.0,
          refl,
          x.2,
          AllKeys-merge (Right k) r second x.3 (
              AllKeys-zip _ _ (Right k) (λ e' after le. (text_ltb_trans k m e' a.0 after, le))
                second b (AllKeys-least (hash_priority sha256 k) j q g s t top (ground arith) y)),
          x.4,
          merge-IsTreap m r (node j q g s t top) a.2 b x.5 y,
        )
        | inr ge ↦ rw ge (
          y.0,
          refl,
          AllKeys-merge (Left j) first s
              (AllKeys-zip _ _ (Left j) (λ e' before le. (text_ltb_trans e' m j before b.0, le))
                first a (AllKeys-least (hash_priority sha256 j) k p h l r root (ground arith) x))
              y.2,
          y.3,
          merge-IsTreap m (node k p h l r root) s a b.1 x y.4,
          y.5,
        )
      ]

  -- Deleting a key, known or not, keeps the invariant of the treap: keys in order, priorities in
  -- heap order and equal to the hashes of the keys, and the hash of every subtree up to date.
  pub delete-IsTreap : (t : Treap) (key : String) → IsTreap t → IsTreap (delete sha256 t key)
  unfolding delete
  delete-IsTreap empty key x = tt
  delete-IsTreap (node k p h l r root) key x = elim (Bool-cases (key == k)) [
    | inl e ↦ rw e (
        merge-IsTreap k l r (AllKeys-map (Left k) _ (λ j a. a.0) l x.2)
          (AllKeys-map (Right k) _ (λ j a. a.0) r x.3) x.4 x.5)
    | inr e ↦ rw e (elim (Bool-cases (text_ltb key k)) [
      | inl b ↦
          rw b (x.0, refl, AllKeys-delete (Left k) l key x.2, x.3, delete-IsTreap l key x.4, x.5)
      | inr b ↦
          rw b (x.0, refl, x.2, AllKeys-delete (Right k) r key x.3, x.4, delete-IsTreap r key x.5)
    ])
  ]
