-- ===== src/Prelude/Dict.antt =====
-- Python's dict as a list of pairs in insertion order: a write to a known key keeps its place, and
-- `del` closes the gap.
use mathlib.Core.Path.{◌≡◌, refl, sym, subst}
use mathlib.Core.Logic.{inl, inr}
use mathlib.Core.Bool.{Bool, true, false}
use mathlib.Core.Option.{Option, none, some}
use mathlib.Core.List.{List, [], ◌∷◌}
use native.Mathlib.Omega.{arith}
use xian_abci.Prelude.Tests.{if◌then◌else◌, Bool-cases}
use xian_abci.Prelude.Lists.{All}
use xian_abci.Prelude.Eq.{Equality, ◌==◌, beq_refl}

abbrev pub Dict {ℓ κ} : Type ℓ → Type κ → Type (ℓ ⊔ κ)
Dict K V = List (K × V)

module _ {ℓ κ} {K : Type ℓ} {V : Type κ} ⦃e : Equality K⦄ where
  -- `d.get(k)`
  unfoldable pub lookup : K → Dict K V → Option V
  lookup k [] = none
  lookup k ((j, v) ∷ d) = if j == k then some v else lookup k d

  -- `d[k] = v`
  unfoldable pub insert : K → V → Dict K V → Dict K V
  insert k v [] = (k, v) ∷ []
  insert k v ((j, w) ∷ d) = if j == k then (j, v) ∷ d else (j, w) ∷ insert k v d

  -- `d.pop(k, None)`
  unfoldable pub erase : K → Dict K V → Dict K V
  erase k [] = []
  erase k ((j, w) ∷ d) = let rest = erase k d in if j == k then rest else (j, w) ∷ rest

  -- `k in d`
  abbrev pub contains : K → Dict K V → Bool
  contains k d = elim (lookup k d) [ none ↦ false | some _ ↦ true ]

  pub lookup-insert :
      (k j : K) (v : V) (d : Dict K V)
      → lookup j (insert k v d) ≡ (if k == j then some v else lookup j d)
  unfolding lookup insert
  lookup-insert k j v [] = refl
  lookup-insert k j v ((i, w) ∷ d) =
      ground (arith, e.same_iff k j, e.same_iff i k, e.same_iff i j, lookup-insert k j v d)

  pub lookup-erase :
      (k j : K) (d : Dict K V) → lookup j (erase k d) ≡ (if k == j then none else lookup j d)
  unfolding lookup erase
  lookup-erase k j [] = ground arith
  lookup-erase k j ((i, w) ∷ d) =
      ground (arith, e.same_iff k j, e.same_iff i k, e.same_iff i j, lookup-erase k j d)

  -- Each key stands once.
  abbrev pub IsNodup : Dict K V → Type 0
  IsNodup [] = Unit
  IsNodup ((k, v) ∷ d) = (contains k d ≡ false) × IsNodup d

  pub contains-insert :
      (k j : K) (v : V) (d : Dict K V)
      → contains j (insert k v d) ≡ (if k == j then true else contains j d)
  contains-insert k j v d = rw (lookup-insert k j v d, contains) (ground arith)

  pub IsNodup-insert : (k : K) (v : V) (d : Dict K V) → IsNodup d → IsNodup (insert k v d)
  unfolding insert lookup
  IsNodup-insert k v [] h = (refl, tt)
  IsNodup-insert k v ((j, w) ∷ d) h =
      ground
        (arith, e.same_iff j k, e.same_iff k j, contains-insert k j v d, IsNodup-insert k v d h.1)

  -- What holds of the old items and of the new one holds of all.
  pub All-insert {μ} :
      (P : K × V → Type μ) (k : K) (v : V) (d : Dict K V)
      → P (k, v)
      → All P d
      → All P (insert k v d)
  unfolding insert
  All-insert P k v [] p h = (p, tt)
  All-insert P k v ((j, w) ∷ d) p h = elim (Bool-cases (j == k)) [
    | inl same ↦ rw same (subst (λ i. P (i, v)) (sym ((e.same_iff j k).0 same)) p, h.1)
    | inr other ↦ rw other (h.0, All-insert P k v d p h.1)
  ]

pub ruleset dict_laws = (lookup-insert, lookup-erase, beq_refl)
