-- ===== src/Prelude/Text.antt =====
-- The order of Python texts, code point by code point, as a strict total order.
use Prim.Native.Nat.{Ordering, compare as compare_ℕ}
use Prim.Native.Char.{Char, code}
use Prim.Native.String.{String, compare, then}
use Prim.Native.String.compare
use mathlib.Core.Path.{◌≡◌}
use mathlib.Core.Logic.{◌↔◌}
use mathlib.Core.Bool.{Bool, true, false}
use native.Mathlib.Omega.{arith}
use text.Mathlib.Text.{is_lt}
use text.Mathlib.TextEquality.{path_by_compare}

-- `s < t`.
unfoldable pub text_ltb : String → String → Bool
text_ltb s t = is_lt (compare s t)

-- One comparison of code points, then the rest of the texts.
compare_cons :
    (c d : Char) (s t : String)
    → compare (String.◌∷◌ c s) (String.◌∷◌ d t) ≡ then (compare_ℕ (code c) (code d)) (compare s t)
compare_cons = compare.cons-cons

compare_self : (s : String) → compare s s ≡ Ordering.eq
compare_self String.[] = compare.nil-nil
compare_self (String.◌∷◌ c s) = rw compare_cons (ground (arith, compare_self s))

compare_flip : (s t : String) → compare s t ≡ Ordering.gt → compare t s ≡ Ordering.lt
compare_flip String.[] String.[] h = cc compare.nil-nil
compare_flip String.[] (String.◌∷◌ d t) h = cc (compare.nil-cons d t)
compare_flip (String.◌∷◌ c s) String.[] h = compare.nil-cons c s
compare_flip (String.◌∷◌ c s) (String.◌∷◌ d t) h =
    ground (arith, compare_cons c d s t, compare_cons d c t s, compare_flip s t)

compare_trans :
    (s t u : String)
    → compare s t ≡ Ordering.lt
    → compare t u ≡ Ordering.lt
    → compare s u ≡ Ordering.lt
compare_trans String.[] String.[] String.[] h k = h
compare_trans (String.◌∷◌ c s) String.[] String.[] h k = h
compare_trans s (String.◌∷◌ d t) String.[] h k = cc (compare.cons-nil d t)
compare_trans String.[] t (String.◌∷◌ e u) h k = compare.nil-cons e u
compare_trans (String.◌∷◌ c s) String.[] (String.◌∷◌ e u) h k = cc (compare.cons-nil c s)
compare_trans (String.◌∷◌ c s) (String.◌∷◌ d t) (String.◌∷◌ e u) h k =
    ground
      (arith, compare_cons c d s t, compare_cons d e t u, compare_cons c e s u, compare_trans s t u)

is_lt_iff : (o : Ordering) → (is_lt o ≡ true) ↔ (o ≡ Ordering.lt)
is_lt_iff o = ground arith

pub text_ltb_irrefl : (s : String) → text_ltb s s ≡ false
unfolding text_ltb
text_ltb_irrefl s = rw compare_self

pub text_ltb_trans :
    (s t u : String) → text_ltb s t ≡ true → text_ltb t u ≡ true → text_ltb s u ≡ true
unfolding text_ltb
text_ltb_trans s t u h k =
    (is_lt_iff _).1 (compare_trans s t u ((is_lt_iff _).0 h) ((is_lt_iff _).0 k))

pub text_ltb_total : (s t : String) → text_ltb s t ≡ false → text_ltb t s ≡ false → s ≡ t
unfolding text_ltb
text_ltb_total s t h k = ground (arith, path_by_compare s t, compare_flip s t)
