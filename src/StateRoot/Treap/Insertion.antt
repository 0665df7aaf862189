-- ===== src/StateRoot/Treap/Insertion.antt =====
-- The insertion into a treap keeps its invariant.
use xian_abci.Prelude.{
  ℕ, String, ◌≤◌, ◌<◌, ◌≡◌, sym, ◌∙◌, refl, ltb, ◌==◌, string_eq, ◌⊎◌, inl, inr, arith, true,
  Bool-cases,
}
use xian_abci.Prelude.Text.{text_ltb, text_ltb_irrefl, text_ltb_trans}
use xian_abci.Prelude.Bytes.{Bytes}
use xian_abci.StateRoot.Hashing.{hash_priority}
use xian_abci.StateRoot.Treap.{Treap, empty, node, insert_or_update, settle_left, settle_right}
use xian_abci.StateRoot.Treap.Order.{
  AllKeys, AllKeys-map, AllKeys-zip, AllKeys-insert, AllKeys-least, Left, Right, IsTreap,
  text_ltb-flip,
}

module _ (sha256 : Bytes → Bytes) where
  -- What a rebalancing needs to know of the child that an insertion of `key` has produced: each of
  -- its keys is the inserted one, or no more urgent than the parent.
  abbrev Inserted : String → String → String → Type 0
  Inserted key k j = (j ≡ key) ⊎ (hash_priority sha256 k ≤ hash_priority sha256 j)

  -- An inserted key that is not the one at hand: it would stand on one side of itself.
  Inserted-below :
      (key k j e : String)
      → Inserted key k j
      → hash_priority sha256 j < hash_priority sha256 k
      → (j ≡ e → ⊥)
      → Inserted key k e
      → hash_priority sha256 k ≤ hash_priority sha256 e
  Inserted-below key k j e (inl at_j) lt ne (inl at_e) = absurd (ne (at_j ∙ sym at_e))
  Inserted-below key k j e (inr le) lt ne (inl at_e) = absurd (omega arith)
  Inserted-below key k j e at_j lt ne (inr le) = le

  text_ltb-ne : (j e : String) → text_ltb j e ≡ true → j ≡ e → ⊥
  text_ltb-ne j e lt eq = cc (text_ltb_irrefl e)

  settle_left-IsTreap :
      (key k : String) (p : ℕ) (h : Bytes) (l r : Treap) (root : Bytes)
      → p ≡ hash_priority sha256 k
      → AllKeys (λ j. (text_ltb j k ≡ true) × Inserted key k j) l
      → AllKeys (Right sha256 k) r
      → IsTreap sha256 l
      → IsTreap sha256 r
      → IsTreap sha256 (settle_left sha256 k p h l r root)
  unfolding settle_left
  settle_left-IsTreap key k p h empty r root e a b x y = (e, refl, tt, b, tt, y)
  settle_left-IsTreap key k p h (node j q g s t top) r root e a b x y =
      elim (Bool-cases (ltb q p)) [
        | inl lt ↦
            let urgent : hash_priority sha256 j < hash_priority sha256 k = ground arith in
            rw lt (
              x.0,
              refl,
              x.2,
              (
                (a.0.0, omega arith),
                x.3,
                AllKeys-map (Right sha256 k) (Right sha256 j)
                    (λ i c. (text_ltb_trans j k i a.0.0 c.0, omega (arith, c.1))) r b,
              ),
              x.4,
              (
                e,
                refl,
                AllKeys-zip _ (Right sha256 j) (Left sha256 k)
                    (λ i c d.
                      (c.0, Inserted-below key k j i a.0.1 urgent (text_ltb-ne j i d.0) c.1))
                    t a.2 x.3,
                b,
                x.5,
                y,
              ),
            )
        | inr ge ↦ rw ge (
          e,
          refl,
          AllKeys-zip _ _ (Left sha256 k) (λ i c le. (c.0, le)) (node j q g s t top) a
              (AllKeys-least sha256 (hash_priority sha256 k) j q g s t top (ground arith) x),
          b,
          x,
          y,
        )
      ]

  settle_right-IsTreap :
      (key k : String) (p : ℕ) (h : Bytes) (l r : Treap) (root : Bytes)
      → p ≡ hash_priority sha256 k
      → AllKeys (Left sha256 k) l
      → AllKeys (λ j. (text_ltb k j ≡ true) × Inserted key k j) r
      → IsTreap sha256 l
      → IsTreap sha256 r
      → IsTreap sha256 (settle_right sha256 k p h l r root)
  unfolding settle_right
  settle_right-IsTreap key k p h l empty root e a b x y = (e, refl, a, tt, x, tt)
  settle_right-IsTreap key k p h l (node j q g s t top) root e a b x y =
      elim (Bool-cases (ltb q p)) [
        | inl lt ↦
            let urgent : hash_priority sha256 j < hash_priority sha256 k = ground arith in
            rw lt (
              y.0,
              refl,
              (
                (b.0.0, omega arith),
                AllKeys-map (Left sha256 k) (Left sha256 j)
                    (λ i c. (text_ltb_trans i k j c.0 b.0.0, omega (arith, c.1))) l a,
                y.2,
              ),
              y.3,
              (
                e,
                refl,
                a,
                AllKeys-zip _ (Left sha256 j) (Right sha256 k)
                    (λ i c d. (
                      c.0,
                      Inserted-below key k j i b.0.1 urgent (λ q. text_ltb-ne i j d.0 (sym q)) c.1,
                    ))
                    s b.1 y.2,
                x,
                y.4,
              ),
              y.5,
            )
        | inr ge ↦ rw ge (
          e,
          refl,
          a,
          AllKeys-zip _ _ (Right sha256 k) (λ i c le. (c.0, le)) (node j q g s t top) b
              (AllKeys-least sha256 (hash_priority sha256 k) j q g s t top (ground arith) y),
          x,
          y,
        )
      ]

  -- Inserting a key, or writing at a known one, keeps the invariant of the treap: keys in order,
  -- priorities in heap order and equal to the hashes of the keys, and the hash of every subtree up
  -- to date.
  pub insert-IsTreap :
      (t : Treap) (key : String) (v : Bytes)
      → IsTreap sha256 t
      → IsTreap sha256 (insert_or_update sha256 t key v)
  unfolding insert_or_update
  insert-IsTreap empty key v x = (refl, refl, tt, tt, tt, tt)
  insert-IsTreap (node k p g l r root) key v x = elim (Bool-cases (key == k)) [
    | inl e ↦ rw e (x.0, refl, x.2, x.3, x.4, x.5)
    | inr e ↦ rw e (elim (Bool-cases (text_ltb key k)) [
      | inl b ↦ rw b (
          settle_left-IsTreap key k p g (insert_or_update sha256 l key v) r root x.0
            (AllKeys-insert sha256 _ l key v (b, inl refl)
              (AllKeys-map (Left sha256 k) _ (λ j a. (a.0, inr a.1)) l x.2))
            x.3 (insert-IsTreap l key v x.4) x.5)
      | inr b ↦
          let after : text_ltb k key ≡ true = text_ltb-flip key k e b in
          rw b (
            settle_right-IsTreap key k p g l (insert_or_update sha256 r key v) root x.0 x.2
              (AllKeys-insert sha256 _ r key v (after, inl refl)
                (AllKeys-map (Right sha256 k) _ (λ j a. (a.0, inr a.1)) r x.3))
              x.4 (insert-IsTreap r key v x.5))
    ])
  ]
