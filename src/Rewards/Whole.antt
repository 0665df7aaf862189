-- ===== src/Rewards/Whole.antt =====
-- Whole numbers as the decimals of src/xian/rewards.py.
use mathlib.Core.Path.{subst}
use native.Mathlib.Nat.{
  mul_comm, mul-add, add-mul, mul-le-mul_left, div-le_of_le-mul, mul-div_cancel, le-div_iff_mul-le,
  div-mul-le_self,
}
use xian_abci.Prelude.{ℕ, suc, ◌+◌, ◌*◌, ◌/◌, ◌≤◌, ◌<◌, ◌≡◌, refl, ap, sym, string_eq, arith}
use xian_abci.Prelude.Int.{
  ℤ, pos, negsuc, ◌+ℤ◌, ◌-ℤ◌, ltb_ℤ, eqb_ℤ, int_laws, eq_of_parts, +ℤ_parts, -ℤ_parts,
}
use xian_abci.Result.{Except, ok, err, value_error}
use xian_abci.Value.{Value, int}
use xian_abci.Value.Number.{negative}
use xian_abci.Rewards.{Decimals}
use xian_abci.Rewards.Split.Ledger.{Additive}
use xian_abci.Rewards.Split.Conserved.{IsLe, IsLt, RoundsDown, portion}

abbrev mul_ℤ : ℤ → ℤ → ℤ
mul_ℤ (pos a) (pos b) = pos (a * b)
mul_ℤ (pos a) (negsuc b) = negative (a * suc b)
mul_ℤ (negsuc a) (pos b) = negative (suc a * b)
mul_ℤ (negsuc a) (negsuc b) = pos (suc a * suc b)

-- Rounded down; the divisors of the example are positive, and what is divided is not negative.
abbrev div_ℤ : ℤ → ℤ → ℤ
div_ℤ (pos a) (pos b) = pos (a / b)
div_ℤ _ b = pos 0

abbrev whole_of : Value → Except ℤ
whole_of (int i) = ok i
whole_of _ = err value_error

-- Rounded down to a multiple of 10; what is negative stays.
abbrev tens : ℤ → ℤ
tens (pos a) = pos (a / 10 * 10)
tens (negsuc a) = negsuc a

abbrev pub decimals : Decimals
decimals = record {
  Number = ℤ;
  zero = pos 0;
  one = pos 1;
  ten_thousand = pos 10000;
  add = λ a b. a +ℤ b;
  sub = λ a b. a -ℤ b;
  mul = mul_ℤ;
  div = div_ℤ;
  lt = ltb_ℤ;
  is_zero = λ a. eqb_ℤ a (pos 0);
  contracting = tens;
  round = λ a. a;
  of_value = whole_of;
}

pub additive : Additive decimals
additive = record {
  add_assoc = λ a b c. eq_of_parts _ _ (omega int_laws);
  add_comm = λ a b. eq_of_parts _ _ (omega int_laws);
  zero_add = λ a. eq_of_parts _ _ (omega int_laws);
}

add-sub_ℤ : (a b : ℤ) → (a +ℤ (b -ℤ a)) ≡ b
add-sub_ℤ a b = eq_of_parts _ _ (omega int_laws)

le-sub_ℤ : (a b : ℤ) → IsLe decimals a b → IsLe decimals (pos 0) (b -ℤ a)
le-sub_ℤ a b h = ground (arith, -ℤ_parts b a)

le-add_ℤ : (a b c : ℤ) → IsLe decimals a b → IsLe decimals (a +ℤ c) (b +ℤ c)
le-add_ℤ a b c h = ground (arith, +ℤ_parts a c, +ℤ_parts b c)

le_trans_ℤ : (a b c : ℤ) → IsLe decimals a b → IsLe decimals b c → IsLe decimals a c
le_trans_ℤ a b c h k = ground arith

tens-le : (a : ℤ) → IsLe decimals (tens a) a
tens-le (pos a) = ground arith
tens-le (negsuc a) = ground arith

tens-near : (a : ℤ) → IsLe decimals a (tens a +ℤ pos 9)
unfolding ◌+ℤ◌
tens-near (pos a) = ground arith
tens-near (negsuc a) = ground arith

lt_le_ℤ : (a b : ℤ) → IsLt decimals a b → IsLe decimals a b
lt_le_ℤ a b h = ground arith

lt_trans_ℤ : (a b c : ℤ) → IsLt decimals a b → IsLe decimals b c → IsLt decimals a c
lt_trans_ℤ a b c h k = ground arith

le-portion_ℤ :
    (x part whole : ℤ)
    → IsLe decimals (pos 0) x
    → IsLe decimals (pos 0) part
    → IsLt decimals (pos 0) whole
    → IsLe decimals (pos 0) (portion decimals x part whole)
le-portion_ℤ (pos a) (pos b) (pos c) h k l = ground arith
le-portion_ℤ (pos a) (pos b) (negsuc c) h k l = ground arith
le-portion_ℤ (pos a) (negsuc b) whole h k l = ground arith
le-portion_ℤ (negsuc a) part whole h k l = ground arith

portion-le_ℕ : (a b c : ℕ) → b ≤ c → a * b / c ≤ a
portion-le_ℕ a b c h =
    div-le_of_le-mul c (subst (λ n. a * b ≤ n) (mul_comm a c) (mul-le-mul_left a h))

portion-le_ℤ :
    (x part whole : ℤ)
    → IsLe decimals (pos 0) x
    → IsLe decimals (pos 0) part
    → IsLe decimals part whole
    → IsLt decimals (pos 0) whole
    → IsLe decimals (portion decimals x part whole) x
portion-le_ℤ (pos a) (pos b) (pos c) h k m l =
    let q = portion-le_ℕ a b c (ground arith) in ground arith
portion-le_ℤ (pos a) (pos b) (negsuc c) h k m l = ground arith
portion-le_ℤ (pos a) (negsuc b) whole h k m l = ground arith
portion-le_ℤ (negsuc a) part whole h k m l = ground arith

portion_whole_ℤ :
    (x whole : ℤ)
    → IsLe decimals (pos 0) x
    → IsLt decimals (pos 0) whole
    → portion decimals x whole whole ≡ x
portion_whole_ℤ (pos a) (pos c) h l = ap pos (mul-div_cancel a (ground arith))
portion_whole_ℤ (pos a) (negsuc c) h l = ground arith
portion_whole_ℤ (negsuc a) whole h l = ground arith

portions-le_ℕ : (x a b w : ℕ) → 0 < w → x * a / w + x * b / w ≤ x * (a + b) / w
portions-le_ℕ x a b w h = (le-div_iff_mul-le h).1 (
    subst (λ n. n ≤ x * (a + b)) (sym (add-mul (x * a / w) (x * b / w) w))
      (subst (λ n. x * a / w * w + x * b / w * w ≤ n) (sym (mul-add x a b))
        (omega (arith, div-mul-le_self (x * a) w, div-mul-le_self (x * b) w))))

portions-le_ℤ :
    (x a b whole : ℤ)
    → IsLe decimals (pos 0) x
    → IsLe decimals (pos 0) a
    → IsLe decimals (pos 0) b
    → IsLt decimals (pos 0) whole
    → IsLe decimals
        (portion decimals x a whole +ℤ portion decimals x b whole)
        (portion decimals x (a +ℤ b) whole)
unfolding ◌+ℤ◌
portions-le_ℤ (pos x) (pos a) (pos b) (pos w) h k m l =
    let q = portions-le_ℕ x a b w (ground arith) in ground arith
portions-le_ℤ (pos x) (pos a) (pos b) (negsuc w) h k m l = ground arith
portions-le_ℤ (pos x) (pos a) (negsuc b) w h k m l = ground arith
portions-le_ℤ (pos x) (negsuc a) b w h k m l = ground arith
portions-le_ℤ (negsuc x) a b w h k m l = ground arith

pub laws : RoundsDown decimals
laws = record {
  additive = additive;
  add-sub = add-sub_ℤ;
  dust = pos 9;
  contracting-le = tens-le;
  contracting-near = tens-near;
  le_self = λ a. ground arith;
  le_trans = le_trans_ℤ;
  lt_le = lt_le_ℤ;
  lt_trans = lt_trans_ℤ;
  le-add = le-add_ℤ;
  le-sub = le-sub_ℤ;
  one_positive = refl;
  ten_thousand_positive = refl;
  le-portion = le-portion_ℤ;
  portion-le = portion-le_ℤ;
  portion_whole = portion_whole_ℤ;
  portions-le = portions-le_ℤ;
}
