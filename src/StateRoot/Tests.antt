-- ===== src/StateRoot/Tests.antt =====
-- The theorems on the treap and the cache at a small state: the hash is the identity, a value is
-- its own encoding.
use mathlib.Core.Path.{subst}
use text.Mathlib.TextEquality.{eq_iff}
use xian_abci.Prelude.{
  ℕ, String, true, false, refl, sym, arith, Option, none, some, ◌≡◌, ◌⊎◌, inl, inr, [], ◌∷◌, ◌==◌,
  string_eq, Bool-cases,
}
use xian_abci.Prelude.Bytes.{Bytes, utf8, utf8_char, from_bytes_big}
use xian_abci.Prelude.Dict.{Dict, lookup, contains, insert, erase}
use xian_abci.StateRoot.Hashing.{hash_priority, hash_leaf, is_consensus_state_key}
use xian_abci.StateRoot.Treap.{Treap, empty, find, insert_or_update, delete}
use xian_abci.StateRoot.Treap.Order.{IsTreap, AllKeys, AllKeys-insert, delete-IsTreap}
use xian_abci.StateRoot.Treap.Insertion.{insert-IsTreap}
use xian_abci.StateRoot.Treap.Find.{find-insert, find-delete}
use xian_abci.StateRoot.Treap.Canonical.{Distinct, treap_canonical}
use xian_abci.StateRoot.Cache.{
  StateRootCache, empty_cache, set_leaf_hash, root_hash, prepare, prepare_writes, prepare_write,
  rollback, undo, rebuilt, merkle_root_from_items,
}
use xian_abci.StateRoot.Cache.Coherence.{
  IsCoherent, empty-IsCoherent, set_leaf_hash-IsCoherent, NoCollision, root_hash_canonical,
}
use xian_abci.StateRoot.Cache.Roots.{
  rollback-prepare, prepare-eq-rebuild, IsUpdate, Represents, state_leaf,
}

abbrev plain : Bytes → Bytes
plain b = b

abbrev encode : ℕ → Bytes
encode n = n ∷ []

-- The keys "a" and "b".
abbrev one : Treap
one = insert_or_update plain empty "a" (1 ∷ [])

abbrev two : Treap
two = insert_or_update plain one "b" (2 ∷ [])

one-IsTreap : IsTreap plain one
one-IsTreap = insert-IsTreap plain empty "a" (1 ∷ []) tt

two-IsTreap : IsTreap plain two
two-IsTreap = insert-IsTreap plain one "b" (2 ∷ []) one-IsTreap

insert-IsTreap_example : IsTreap plain (insert_or_update plain one "b" (2 ∷ []))
insert-IsTreap_example = insert-IsTreap plain one "b" (2 ∷ []) one-IsTreap

delete-IsTreap_example : IsTreap plain (delete plain two "a")
delete-IsTreap_example = delete-IsTreap plain two "a" two-IsTreap

find-insert_example : find "b" (insert_or_update plain one "b" (2 ∷ [])) ≡ some (2 ∷ [])
find-insert_example = find-insert plain one "b" "b" (2 ∷ []) one-IsTreap

find-delete_example : find "b" (delete plain two "a") ≡ find "b" two
find-delete_example = find-delete plain two "a" "b" two-IsTreap

-- The two keys have different priorities.
abbrev Known : String → Type 0
Known i = (i ≡ "a") ⊎ (i ≡ "b")

priorities_differ : {P : Type 0} → hash_priority plain "a" ≡ hash_priority plain "b" → P
unfolding hash_priority from_bytes_big utf8 utf8_char
priorities_differ h = absurd (ground (arith, h))

Known-Distinct : Distinct plain Known
Known-Distinct i j (inl a) (inl b) h = cc
Known-Distinct i j (inr a) (inr b) h = cc
Known-Distinct i j (inl a) (inr b) h = priorities_differ (rw (a, b) at h)
Known-Distinct i j (inr a) (inl b) h = priorities_differ (sym (rw (a, b) at h))

not_both : (i : String) → ("a" == i) ≡ true → ("b" == i) ≡ false
not_both i h = subst (λ j. ("b" == j) ≡ false) ((eq_iff "a" i).0 h) refl

-- Two orders of insertion give one tree.
abbrev other : Treap
other = insert_or_update plain (insert_or_update plain empty "b" (2 ∷ [])) "a" (1 ∷ [])

other-IsTreap : IsTreap plain other
other-IsTreap =
    insert-IsTreap plain (insert_or_update plain empty "b" (2 ∷ [])) "a" (1 ∷ [])
      (insert-IsTreap plain empty "b" (2 ∷ []) tt)

same_leaves : (i : String) → find i two ≡ find i other
same_leaves i = ground (
  arith,
  not_both i,
  find-insert plain empty "a" i (1 ∷ []) tt,
  find-insert plain empty "b" i (2 ∷ []) tt,
  find-insert plain one "b" i (2 ∷ []) one-IsTreap,
  find-insert plain (insert_or_update plain empty "b" (2 ∷ [])) "a" i (1 ∷ [])
      (insert-IsTreap plain empty "b" (2 ∷ []) tt),
)

two-Known : AllKeys Known two
two-Known =
    AllKeys-insert plain Known one "b" (2 ∷ []) (inr refl)
      (AllKeys-insert plain Known empty "a" (1 ∷ []) (inl refl) tt)

treap_canonical_example : two ≡ other
treap_canonical_example =
    treap_canonical plain Known Known-Distinct two other two-IsTreap other-IsTreap two-Known
      same_leaves

-- A committed cache with the value 1 at "a".
abbrev leaf : ℕ → String → Option Bytes
leaf n key = some (hash_leaf plain encode key n)

abbrev committed : StateRootCache
committed = set_leaf_hash plain empty_cache "a" (leaf 1 "a")

committed-IsCoherent : IsCoherent plain committed
committed-IsCoherent =
    set_leaf_hash-IsCoherent plain empty_cache "a" (leaf 1 "a") (empty-IsCoherent plain)

set_leaf_hash-IsCoherent_example : IsCoherent plain (set_leaf_hash plain committed "b" (leaf 2 "b"))
set_leaf_hash-IsCoherent_example =
    set_leaf_hash-IsCoherent plain committed "b" (leaf 2 "b") committed-IsCoherent

abbrev writes : Dict String (Option ℕ)
writes = ("b", some 2) ∷ []

abbrev prepared : StateRootCache
prepared = prepare plain ":" encode committed writes

-- The known keys of a table.
NoCollision-Known :
    (d : Dict String Bytes) → ((i : String) → contains i d ≡ true → Known i) → NoCollision plain d
NoCollision-Known d known i j a b h = Known-Distinct i j (known i a) (known j b) h

committed-Known : (i : String) → contains i (rollback plain committed).leaf_hashes ≡ true → Known i
unfolding rollback undo set_leaf_hash insert lookup
committed-Known i h = ground (arith, eq_iff "a" i)

prepared-Known : (i : String) → contains i prepared.leaf_hashes ≡ true → Known i
unfolding prepare prepare_writes prepare_write is_consensus_state_key rollback undo set_leaf_hash
    insert lookup
prepared-Known i h = ground (arith, eq_iff "a" i, eq_iff "b" i)

abbrev state : Dict String (Option ℕ)
state = ("a", some 1) ∷ []

abbrev state_after : Dict String (Option ℕ)
state_after = ("a", some 1) ∷ ("b", some 2) ∷ []

stands : Represents plain ":" encode (rollback plain committed) state
unfolding rollback undo set_leaf_hash insert lookup
stands i = elim (Bool-cases ("a" == i)) [
  | inl e ↦
      subst
        (λ j. lookup j (rollback plain committed).leaf_hashes ≡ state_leaf plain ":" encode state j)
        ((eq_iff "a" i).0 e) (unfold is_consensus_state_key in refl)
  | inr ne ↦ ground arith
]

updates : IsUpdate plain ":" encode state writes state_after
unfolding lookup
updates i = ground (arith, not_both i)

rollback-prepare_example :
    root_hash plain (rollback plain prepared) ≡ root_hash plain (rollback plain committed)
unfolding lookup
rollback-prepare_example =
    (rollback-prepare plain ":" encode committed writes committed-IsCoherent (refl, tt)
      (NoCollision-Known _ committed-Known)).0

prepare-eq-rebuild_example :
    merkle_root_from_items plain ":" encode state_after ≡ rebuilt (root_hash plain prepared)
unfolding lookup
prepare-eq-rebuild_example =
    prepare-eq-rebuild plain ":" encode committed state writes state_after committed-IsCoherent
      stands (refl, tt) (refl, (refl, tt)) updates (NoCollision-Known _ prepared-Known)

-- Two histories of one table.
abbrev longer : StateRootCache
longer = set_leaf_hash plain committed "b" (leaf 2 "b")

abbrev detour : StateRootCache
detour = set_leaf_hash plain longer "b" none

detour-IsCoherent : IsCoherent plain detour
detour-IsCoherent =
    set_leaf_hash-IsCoherent plain longer "b" none
      (set_leaf_hash-IsCoherent plain committed "b" (leaf 2 "b") committed-IsCoherent)

committed-NoCollision : NoCollision plain committed.leaf_hashes
unfolding set_leaf_hash insert lookup
committed-NoCollision =
    NoCollision-Known committed.leaf_hashes (λ i h. ground (arith, eq_iff "a" i))

root_hash_canonical_example : root_hash plain committed ≡ root_hash plain detour
root_hash_canonical_example =
    root_hash_canonical plain committed detour committed-NoCollision committed-IsCoherent
      detour-IsCoherent (λ i. unfold set_leaf_hash insert lookup erase in refl)
