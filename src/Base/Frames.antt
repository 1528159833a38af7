-- ===== src/Base/Frames.antt =====
-- Frames and other texts of the program as lists of bytes, with the equality test that the code
-- writes as `==`.
use Prim.Native.Nat.{ℕ, zero, suc}
use Prim.Native.Char.{code}
use Prim.Native.String.{String}
use mathlib.Core.Path.{◌≡◌, refl}
use mathlib.Core.Logic.{◌↔◌, ◌⊎◌}
use mathlib.Core.Bool.{Bool, true, false, ◌&&◌}
use mathlib.Core.List.{List, [], ◌∷◌}
use native.Mathlib.Omega.{arith}
use zero_mq_rfc_implementati.Base.Tests.{nat_eq}

abbrev pub Bytes : Type 0
Bytes = List ℕ

-- The bytes of an ASCII literal.
abbrev pub codes : String → Bytes
codes String.[] = []
codes (String.◌∷◌ c s) = code c ∷ codes s

infix 50 ◌==◌
unfoldable pub ◌==◌ : Bytes → Bytes → Bool
[] == [] = true
[] == (y ∷ ys) = false
(x ∷ xs) == [] = false
(x ∷ xs) == (y ∷ ys) = nat_eq x y && (xs == ys)

pub ==_iff : (a b : Bytes) → ((a == b) ≡ true) ↔ (a ≡ b)
unfolding ◌==◌
==_iff [] [] = ground arith
==_iff [] (y ∷ ys) = ground arith
==_iff (x ∷ xs) [] = ground arith
==_iff (x ∷ xs) (y ∷ ys) = ground (arith, ==_iff xs ys)

pub ==_refl : (a : Bytes) → (a == a) ≡ true
==_refl a = (==_iff a a).1 refl

pub ==-cases : (a b : Bytes) → ((a ≡ b) × ((a == b) ≡ true)) ⊎ ((a == b) ≡ false)
==-cases a b = ground (arith, ==_iff a b)

-- `std::string::empty` and `std::string_view::empty`.
abbrev pub is_empty : Bytes → Bool
is_empty [] = true
is_empty (x ∷ xs) = false

-- What a C string holds of a text: the bytes before the first zero byte. The code passes texts on
-- as `data()` to functions that take `const char*`.
unfoldable pub c_str : Bytes → Bytes
c_str [] = []
c_str (zero ∷ xs) = []
c_str (suc x ∷ xs) = suc x ∷ c_str xs

-- No zero byte in the text.
abbrev pub IsPlain : Bytes → Type 0
IsPlain [] = Unit {0}
IsPlain (zero ∷ xs) = ⊥
IsPlain (suc x ∷ xs) = IsPlain xs

pub c_str-of_IsPlain : (a : Bytes) → IsPlain a → c_str a ≡ a
unfolding c_str
c_str-of_IsPlain [] h = refl
c_str-of_IsPlain (zero ∷ xs) h = absurd h
c_str-of_IsPlain (suc x ∷ xs) h = cc (c_str-of_IsPlain xs h)
