-- ===== src/Prelude/Bytes.antt =====
-- Python's bytes: UTF-8 encoding of texts, and big-endian integers.
use Prim.Native.Nat.{ℕ, zero, suc, ◌+◌, ◌*◌, ◌/◌, ◌%◌}
use Prim.Native.Char.{code}
use Prim.Native.String.{String}
use mathlib.Core.Path.{◌≡◌}
use mathlib.Core.Logic.{◌↔◌}
use mathlib.Core.Bool.{Bool, true, false, ◌&&◌}
use mathlib.Core.Option.{Option, none, some}
use native.Mathlib.Omega.{arith}
use mathlib.Core.List.{List, [], ◌∷◌, ◌++◌, foldl}
use xian_abci.Prelude.Tests.{ltb, nat_eqb, if◌then◌else◌}
use xian_abci.Prelude.Eq.{Equality}

-- The bytes, each below 256.
abbrev pub Bytes : Type 0
Bytes = List ℕ

abbrev pub bytes_eqb : Bytes → Bytes → Bool
bytes_eqb [] [] = true
bytes_eqb [] (c ∷ b) = false
bytes_eqb (c ∷ a) [] = false
bytes_eqb (c ∷ a) (d ∷ b) = nat_eqb c d && bytes_eqb a b

pub bytes_eqb_iff : (a b : Bytes) → (bytes_eqb a b ≡ true) ↔ (a ≡ b)
bytes_eqb_iff [] [] = ground arith
bytes_eqb_iff [] (c ∷ b) = ground arith
bytes_eqb_iff (c ∷ a) [] = ground arith
bytes_eqb_iff (c ∷ a) (d ∷ b) = ground (arith, bytes_eqb_iff a b)

instance abbrev pub bytes_eq : Equality Bytes
bytes_eq = record { same = bytes_eqb; same_iff = bytes_eqb_iff }

-- `==` of two digests either of which may be `None`.
abbrev pub option_bytes_eqb : Option Bytes → Option Bytes → Bool
option_bytes_eqb none none = true
option_bytes_eqb none (some b) = false
option_bytes_eqb (some a) none = false
option_bytes_eqb (some a) (some b) = bytes_eqb a b

pub option_bytes_eqb_iff : (a b : Option Bytes) → (option_bytes_eqb a b ≡ true) ↔ (a ≡ b)
option_bytes_eqb_iff none none = ground arith
option_bytes_eqb_iff none (some b) = ground arith
option_bytes_eqb_iff (some a) none = ground arith
option_bytes_eqb_iff (some a) (some b) = ground (arith, bytes_eqb_iff a b)

-- The UTF-8 form of one code point.
unfoldable pub utf8_char : ℕ → Bytes
utf8_char c =
    if ltb c 128
    then c ∷ []
    else if ltb c 2048
    then (192 + c / 64) ∷ (128 + c % 64) ∷ []
    else if ltb c 65536
    then (224 + c / 4096) ∷ (128 + c / 64 % 64) ∷ (128 + c % 64) ∷ []
    else (240 + c / 262144) ∷ (128 + c / 4096 % 64) ∷ (128 + c / 64 % 64) ∷ (128 + c % 64) ∷ []

-- `text.encode("utf-8")`.
unfoldable pub utf8 : String → Bytes
unfolding utf8_char
utf8 String.[] = []
utf8 (String.◌∷◌ c s) = utf8_char (code c) ++ utf8 s

-- `n.to_bytes(width, "big")` for an `n` that fits.
unfoldable pub to_bytes_big : ℕ → ℕ → Bytes
to_bytes_big zero n = []
to_bytes_big (suc width) n = to_bytes_big width (n / 256) ++ (n % 256) ∷ []

-- `int.from_bytes(payload, "big")`.
unfoldable pub from_bytes_big : Bytes → ℕ
from_bytes_big = foldl (λ n b. n * 256 + b) 0
