-- ===== src/Prelude/Sort.antt =====
-- Python's `sorted(items, key=...)` for text keys: stable, and independent of the order of the items
-- where their keys differ.
use mathlib.Core.Path.{◌≡◌, refl, sym, ap, ap₂, subst, ◌∙◌}
use mathlib.Core.Logic.{◌≢◌, inl, inr}
use mathlib.Core.Bool.{false}
use mathlib.Core.List.{List, [], ◌∷◌, Permᴰ}
use native.Mathlib.Omega.{arith}
use Prim.Native.String.{String}
use xian_abci.Prelude.Tests.{if◌then◌else◌, Bool-cases}
use xian_abci.Prelude.Lists.{All}
use xian_abci.Prelude.Text.{text_ltb, text_ltb_irrefl, text_ltb_trans, text_ltb_total}

module _ {ℓ} {A : Type ℓ} (key : A → String) where
  -- Before the first item with a key that is not smaller.
  unfoldable pub insert_by : A → List A → List A
  insert_by x [] = x ∷ []
  insert_by x (y ∷ ys) =
      let rest = insert_by x ys in if text_ltb (key y) (key x) then y ∷ rest else x ∷ y ∷ ys

  unfoldable pub sort_by : List A → List A
  sort_by [] = []
  sort_by (x ∷ xs) = insert_by x (sort_by xs)

  -- No key is smaller than one before it.
  abbrev pub IsSorted : List A → Type 0
  IsSorted [] = Unit
  IsSorted (x ∷ xs) = All (λ y. text_ltb (key y) (key x) ≡ false) xs × IsSorted xs

  pub All-insert_by {κ} :
      (P : A → Type κ) (x : A) (xs : List A) → P x → All P xs → All P (insert_by x xs)
  unfolding insert_by
  All-insert_by P x [] p ps = (p, tt)
  All-insert_by P x (y ∷ ys) p ps = elim (Bool-cases (text_ltb (key y) (key x))) [
    | inl e ↦ rw e (ps.0, All-insert_by P x ys p ps.1)
    | inr e ↦ rw e (p, ps)
  ]

  pub All-sort_by {κ} : (P : A → Type κ) (xs : List A) → All P xs → All P (sort_by xs)
  unfolding sort_by
  All-sort_by P [] ps = tt
  All-sort_by P (x ∷ xs) ps = All-insert_by P x (sort_by xs) ps.0 (All-sort_by P xs ps.1)

  -- Where `x` stays below `y`, it is below all that `y` is below.
  not_below :
      (x y z : A)
      → text_ltb (key y) (key x) ≡ false
      → text_ltb (key z) (key y) ≡ false
      → text_ltb (key z) (key x) ≡ false
  not_below x y z h k = ground (
    arith,
    text_ltb_trans (key y) (key z) (key x),
    ap (λ t. text_ltb t (key x)),
    text_ltb_total (key z) (key y),
  )

  below_each :
      (x y : A) (zs : List A)
      → text_ltb (key y) (key x) ≡ false
      → All (λ z. text_ltb (key z) (key y) ≡ false) zs
      → All (λ z. text_ltb (key z) (key x) ≡ false) zs
  below_each x y [] h ps = tt
  below_each x y (z ∷ zs) h ps = (not_below x y z h ps.0, below_each x y zs h ps.1)

  insert_by-IsSorted : (x : A) (xs : List A) → IsSorted xs → IsSorted (insert_by x xs)
  unfolding insert_by
  insert_by-IsSorted x [] s = (tt, tt)
  insert_by-IsSorted x (y ∷ ys) s = elim (Bool-cases (text_ltb (key y) (key x))) [
    | inl e ↦ rw e (
      All-insert_by (λ z. text_ltb (key z) (key y) ≡ false) x ys
          (ground (arith, text_ltb_irrefl (key x), text_ltb_trans (key x) (key y) (key x))) s.0,
      insert_by-IsSorted x ys s.1,
    )
    | inr e ↦ rw e ((e, below_each x y ys e s.0), s)
  ]

  pub sort_by-IsSorted : (xs : List A) → IsSorted (sort_by xs)
  unfolding sort_by
  sort_by-IsSorted [] = tt
  sort_by-IsSorted (x ∷ xs) = insert_by-IsSorted x (sort_by xs) (sort_by-IsSorted xs)

  insert_by_comm :
      (x y : A) (zs : List A)
      → key x ≢ key y
      → insert_by x (insert_by y zs) ≡ insert_by y (insert_by x zs)
  unfolding insert_by
  insert_by_comm x y [] d = ground (
    arith,
    text_ltb_irrefl (key x),
    text_ltb_trans (key x) (key y) (key x),
    text_ltb_total (key x) (key y),
  )
  insert_by_comm x y (z ∷ zs) d = ground (
    arith,
    text_ltb_irrefl (key x),
    text_ltb_trans (key x) (key y) (key x),
    text_ltb_total (key x) (key y),
    text_ltb_trans (key x) (key z) (key y),
    text_ltb_trans (key y) (key z) (key x),
    text_ltb_trans (key z) (key x) (key y),
    text_ltb_trans (key z) (key y) (key x),
    text_ltb_total (key x) (key z),
    text_ltb_total (key y) (key z),
    insert_by_comm x y zs d,
  )

  -- Every key stands once.
  abbrev pub HasDistinctKeys : List A → Type 0
  HasDistinctKeys [] = Unit
  HasDistinctKeys (x ∷ xs) = All (λ y. key x ≢ key y) xs × HasDistinctKeys xs

  All-Permᴰ {κ} : (P : A → Type κ) {xs ys : List A} → Permᴰ xs ys → All P xs → All P ys
  All-Permᴰ P Permᴰ.nil ps = tt
  All-Permᴰ P (Permᴰ.cons e p) ps = (subst P e ps.0, All-Permᴰ P p ps.1)
  All-Permᴰ P (Permᴰ.swap e d) ps = (subst P d ps.1.0, (subst P e ps.0, ps.1.1))
  All-Permᴰ P (Permᴰ.trans p q) ps = All-Permᴰ P q (All-Permᴰ P p ps)

  HasDistinctKeys-Permᴰ : {xs ys : List A} → Permᴰ xs ys → HasDistinctKeys xs → HasDistinctKeys ys
  HasDistinctKeys-Permᴰ Permᴰ.nil d = tt
  HasDistinctKeys-Permᴰ (Permᴰ.cons {a} {b} {l₂ = ys} e p) d =
      (subst (λ c. All (λ y. key c ≢ key y) ys) e (All-Permᴰ _ p d.0), HasDistinctKeys-Permᴰ p d.1)
  HasDistinctKeys-Permᴰ (Permᴰ.swap {a} {b} {a'} {b'} {l} e f) d =
      subst (λ u. HasDistinctKeys (u ∷ b' ∷ l)) f
        (subst (λ v. HasDistinctKeys (b ∷ v ∷ l)) e ((λ q. d.0.0 (sym q), d.1.0), (d.0.1, d.1.1)))
  HasDistinctKeys-Permᴰ (Permᴰ.trans p q) d = HasDistinctKeys-Permᴰ q (HasDistinctKeys-Permᴰ p d)

  -- The order of the items is forgotten.
  pub sort_by-Permᴰ : {xs ys : List A} → Permᴰ xs ys → HasDistinctKeys xs → sort_by xs ≡ sort_by ys
  unfolding sort_by
  sort_by-Permᴰ Permᴰ.nil d = refl
  sort_by-Permᴰ (Permᴰ.cons e p) d = cc (e, sort_by-Permᴰ p d.1)
  sort_by-Permᴰ (Permᴰ.swap {a} {b} {a'} {b'} {l} e f) d =
      insert_by_comm a b (sort_by l) d.0.0 ∙ ap₂ (λ u v. insert_by u (insert_by v (sort_by l))) f e
  sort_by-Permᴰ (Permᴰ.trans p q) d =
      sort_by-Permᴰ p d ∙ sort_by-Permᴰ q (HasDistinctKeys-Permᴰ p d)
