-- ===== src/Common/Bytes.antt =====
-- Byte slices: their equality, and the bytes of a text in ASCII.
use Prim.Native.Nat.{ℕ}
use Prim.Native.Char.{code}
use Prim.Native.String.{String}
use mathlib.Core.Bool.{Bool, true, false, ◌&&◌}
use mathlib.Core.List.{List, [], ◌∷◌}
use mathlib.Core.Path.{◌≡◌, refl}
use mathlib.Core.Logic.{inl, inr}
use native.Mathlib.Omega.{arith}
use sensor_sensei.Common.Tests.{◌==◌, ==_refl, Bool-cases}

abbrev pub codes : String → List ℕ
codes String.[] = []
codes (String.◌∷◌ c s) = code c ∷ codes s

unfoldable pub same_bytes : List ℕ → List ℕ → Bool
same_bytes [] [] = true
same_bytes (a ∷ as') (b ∷ bs) = let rest = same_bytes as' bs in a == b && rest
same_bytes _ _ = false

pub same_bytes_refl : (xs : List ℕ) → same_bytes xs xs ≡ true
unfolding same_bytes
same_bytes_refl [] = refl
same_bytes_refl (x ∷ xs) = rw (==_refl x) (same_bytes_refl xs)

pub same_bytes-≡ : (xs ys : List ℕ) → same_bytes xs ys ≡ true → xs ≡ ys
unfolding same_bytes
same_bytes-≡ [] [] e = refl
same_bytes-≡ [] (y ∷ ys) e = cc
same_bytes-≡ (x ∷ xs) [] e = cc
same_bytes-≡ (x ∷ xs) (y ∷ ys) e = elim (Bool-cases (x == y)) [
  | inl same ↦ elim (Bool-cases (same_bytes xs ys)) [
    | inl rest ↦ let heads : x ≡ y = ground arith in rw (heads, same_bytes-≡ xs ys rest) refl
    | inr other ↦ ground arith
  ]
  | inr other ↦ ground arith
]
