-- ===== src/Formatting/Laws.antt =====
-- What a formatted value is: the shape that the later steps rely on.
use xian_abci.Prelude.{ℕ, String, ◌≤◌, ◌≡◌, refl, true, arith}
use xian_abci.Prelude.Int.{pos, negsuc}
use xian_abci.Value.{Value, null, bool, int, float, str, arr, obj, Fields}
use xian_abci.Formatting.{
  vk_is_formatted, identifier_is_formatted, number_is_formatted, kwargs_are_formatted,
}

-- A formatted number is an int from 0 to 2^64 - 1.
pub number_shape :
    (v : Value)
    → number_is_formatted v ≡ true
    → (n : ℕ) × (v ≡ int (pos n)) × (n ≤ 18446744073709551615)
unfolding number_is_formatted
number_shape (int (pos n)) h = (n, refl, ground arith)
number_shape (int (negsuc n)) h = cc
number_shape null h = cc
number_shape (bool b) h = cc
number_shape (float x) h = cc
number_shape (str s) h = cc
number_shape (arr vs) h = cc
number_shape (obj fs) h = cc

pub vk_shape : (v : Value) → vk_is_formatted v ≡ true → (s : String) × (v ≡ str s)
unfolding vk_is_formatted
vk_shape (str s) h = (s, refl)
vk_shape null h = cc
vk_shape _ h = cc

pub identifier_shape : (v : Value) → identifier_is_formatted v ≡ true → (s : String) × (v ≡ str s)
unfolding identifier_is_formatted
identifier_shape (str s) h = (s, refl)
identifier_shape null h = cc
identifier_shape _ h = cc

pub kwargs_shape : (v : Value) → kwargs_are_formatted v ≡ true → (fs : Fields) × (v ≡ obj fs)
unfolding kwargs_are_formatted
kwargs_shape (obj fs) h = (fs, refl)
kwargs_shape null h = cc
kwargs_shape _ h = cc
