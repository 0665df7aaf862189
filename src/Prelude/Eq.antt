-- ===== src/Prelude/Eq.antt =====
-- Decided equality of keys, as an interface with instances for numbers and texts.
use Prim.Native.Nat.{ℕ}
use Prim.Native.String.{String}
use mathlib.Core.Path.{◌≡◌, refl}
use native.Mathlib.Omega.{arith}
use mathlib.Core.Logic.{◌↔◌, ◌≢◌}
use mathlib.Core.Bool.{Bool, true, false}
use text.Mathlib.Text.{◌==◌ as str_eqb}
use text.Mathlib.TextEquality.{eq_iff}
use xian_abci.Prelude.Tests.{nat_eqb, nat_eqb_iff}

-- A Boolean test of a type and that it decides equality.
pub record Equality {ℓ} (K : Type ℓ) : Type ℓ where
  pub same : K → K → Bool
  pub same_iff : (x y : K) → (same x y ≡ true) ↔ (x ≡ y)

instance abbrev pub string_eq : Equality String
string_eq = record { same = str_eqb; same_iff = eq_iff }

instance abbrev pub nat_eq : Equality ℕ
nat_eq = record { same = nat_eqb; same_iff = nat_eqb_iff }

module _ {ℓ} {K : Type ℓ} ⦃keys : Equality K⦄ where
  infix 50 ◌==◌
  abbrev pub ◌==◌ : K → K → Bool
  x == y = keys.same x y

  pub beq_refl : (x : K) → (x == x) ≡ true
  beq_refl x = (keys.same_iff x x).1 refl

  pub neq_of_false : (x y : K) → (x == y) ≡ false → x ≢ y
  neq_of_false x y h = ground (arith, keys.same_iff x y)
