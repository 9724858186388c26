-- ===== src/Common/Bits.antt =====
-- Bit operations as arithmetic: masks on a byte by tables, and the union of disjoint bits at
-- every width from the digit recursion that the native operation stands for.
use Prim.Native.Nat.{
  ℕ, zero, suc, ◌+◌, ◌*◌, ◌/◌, ◌%◌, ◌^◌, ◌≤◌, ◌<◌, min, max, bit_and, bit_or, digits,
  bit_and-bitwise, bit_or-bitwise,
}
use mathlib.Core.Path.{◌≡◌, refl, sym, ap}
use mathlib.Core.Bool.{Bool, true, ◌&&◌}
use native.Mathlib.Omega.{arith}
use native.Mathlib.Nat.{
  pow-suc, pow-succ', mul_comm, mod-eq-sub-mul-div, div-mul-le_self, div-div-eq-div-mul,
}
use sensor_sensei.Common.Tests.{◌==◌, ==→eq}

-- A Boolean property of every number below a bound, by evaluation.
everywhere : (ℕ → Bool) → ℕ → Bool
everywhere test zero = true
everywhere test (suc n) = everywhere test n && test n

everywhere_at : (test : ℕ → Bool) (x n : ℕ) → x < n → everywhere test n ≡ true → test x ≡ true
unfolding everywhere
everywhere_at test x zero below holds = absurd (omega arith)
everywhere_at test x (suc n) below holds = ground (arith, everywhere_at test x n)

low_seven_table : everywhere (λ x. bit_and x 0x7f == x % 128) 256 ≡ true
unfolding everywhere
low_seven_table = refl

pub low_seven : (x : ℕ) → x < 256 → bit_and x 0x7f ≡ x % 128
low_seven x h = ==→eq _ _ (everywhere_at _ x 256 h low_seven_table)

top_bit_table : everywhere (λ x. bit_and x 0x80 == x / 128 * 128) 256 ≡ true
unfolding everywhere
top_bit_table = refl

pub top_bit : (x : ℕ) → x < 256 → bit_and x 0x80 ≡ x / 128 * 128
top_bit x h = ==→eq _ _ (everywhere_at _ x 256 h top_bit_table)

sign_bit_table : everywhere (λ x. bit_and x 0x40 == x / 64 % 2 * 64) 256 ≡ true
unfolding everywhere
sign_bit_table = refl

pub sign_bit : (x : ℕ) → x < 256 → bit_and x 0x40 ≡ x / 64 % 2 * 64
sign_bit x h = ==→eq _ _ (everywhere_at _ x 256 h sign_bit_table)

set_top_table : everywhere (λ x. bit_or 0x80 x == x + 128) 128 ≡ true
unfolding everywhere
set_top_table = refl

pub set_top : (x : ℕ) → x < 128 → bit_or 0x80 x ≡ x + 128
set_top x h = ==→eq _ _ (everywhere_at _ x 128 h set_top_table)

-- Both operations recur on the binary digits, `z` being the result once the first number has run
-- out and `f` the operation on one digit.
module _ (z : ℕ → ℕ) (f : ℕ → ℕ → ℕ) where
  enough_digits : (n m a b : ℕ) → a ≤ n → a ≤ m → digits z f n a b ≡ digits z f m a b
  enough_digits zero zero a b p q = refl
  enough_digits zero (suc m) zero b p q = refl
  enough_digits (suc n) zero zero b p q = refl
  enough_digits (suc n) (suc m) zero b p q = refl
  enough_digits (suc n) zero (suc a) b p q = absurd (omega arith)
  enough_digits zero (suc m) (suc a) b p q = absurd (omega arith)
  enough_digits (suc n) (suc m) (suc a) b p q =
      let same = enough_digits n m (suc a / 2) (b / 2) (omega arith) (omega arith) in
      ap (λ (t : ℕ). t * 2 + f (suc a % 2) (b % 2)) same

  lowest_digit :
      (a b : ℕ)
      → digits z f (suc a) (suc a) b
        ≡ digits z f (suc a / 2) (suc a / 2) (b / 2) * 2 + f (suc a % 2) (b % 2)
  lowest_digit a b =
      let same = enough_digits a (suc a / 2) (suc a / 2) (b / 2) (omega arith) (omega arith) in
      ap (λ (t : ℕ). t * 2 + f (suc a % 2) (b % 2)) same

zero-bit_or : (b : ℕ) → bit_or 0 b ≡ b
zero-bit_or b = bit_or-bitwise 0 b

bit_or_step : (a b : ℕ) → bit_or a b ≡ bit_or (a / 2) (b / 2) * 2 + max (a % 2) (b % 2)
bit_or_step zero b = omega (arith, zero-bit_or b, zero-bit_or (b / 2))
bit_or_step (suc a) b = omega (
  arith,
  bit_or-bitwise (suc a) b,
  bit_or-bitwise (suc a / 2) (b / 2),
  lowest_digit (λ b. b) max a b,
)

zero-bit_and : (y : ℕ) → bit_and 0 y ≡ 0
zero-bit_and y = bit_and-bitwise 0 y

bit_and_step : (x y : ℕ) → bit_and x y ≡ bit_and (x / 2) (y / 2) * 2 + min (x % 2) (y % 2)
bit_and_step zero y = omega (arith, zero-bit_and y, zero-bit_and (y / 2))
bit_and_step (suc x) y = omega (
  arith,
  bit_and-bitwise (suc x) y,
  bit_and-bitwise (suc x / 2) (y / 2),
  lowest_digit (λ _. zero) min x y,
)

bit_and-zero_below : (n x : ℕ) → x ≤ n → bit_and x 0 ≡ 0
bit_and-zero_below n zero h = zero-bit_and 0
bit_and-zero_below zero (suc x) h = absurd (omega arith)
bit_and-zero_below (suc n) (suc x) h =
    omega (arith, bit_and_step (suc x) 0, bit_and-zero_below n (suc x / 2) (omega arith))

-- `k` ones.
abbrev pub ones : ℕ → ℕ
ones zero = 0
ones (suc k) = ones k * 2 + 1

pub pow-pos : (k : ℕ) → 0 < 2 ^ k
pow-pos zero = omega arith
pow-pos (suc k) = omega (arith, pow-suc 2 k, pow-pos k)

mod_double : (a p : ℕ) → 0 < p → a % (p * 2) ≡ a / 2 % p * 2 + a % 2
mod_double a p h = omega (
  arith,
  mod-eq-sub-mul-div a (p * 2),
  mod-eq-sub-mul-div (a / 2) p,
  ap (λ (t : ℕ). p * t) quotients,
  div-mul-le_self (a / 2) p,
)
  where
    quotients : a / (p * 2) ≡ a / 2 / p
    quotients = rw mul_comm (sym (div-div-eq-div-mul a 2 p))

pow_double : (s : ℕ) → 2 ^ suc s ≡ 2 ^ s * 2
pow_double s = omega (arith, pow-suc 2 s)

-- The bits of `a` lie below bit `s` and those of `b * 2 ^ s` do not, so `|` adds them.
pub bit_or-disjoint : (s a b : ℕ) → a < 2 ^ s → bit_or a (b * 2 ^ s) ≡ a + b * 2 ^ s
bit_or-disjoint zero zero b h = omega (arith, zero-bit_or (b * 1))
bit_or-disjoint zero (suc a) b h = absurd (omega arith)
bit_or-disjoint (suc s) a b h = omega (
  arith,
  bit_or_step a (b * 2 ^ suc s),
  ap (λ (t : ℕ). b * t) (pow_double s),
  pow_double s,
  ap (λ (t : ℕ). bit_or (a / 2) t) half_shift,
  bit_or-disjoint s (a / 2) b (omega (arith, pow_double s)),
)
  where
    half_shift : b * 2 ^ suc s / 2 ≡ b * 2 ^ s
    half_shift = omega (arith, ap (λ (t : ℕ). b * t) (pow_double s))

-- A mask of `k` ones is the remainder by `2 ^ k`.
pub bit_and-ones : (k a : ℕ) → bit_and a (ones k) ≡ a % 2 ^ k
bit_and-ones zero a = omega (arith, bit_and-zero_below a a (omega arith))
bit_and-ones (suc k) a = omega (
  arith,
  bit_and_step a (ones (suc k)),
  ap (λ (t : ℕ). bit_and (a / 2) t) half_mask,
  bit_and-ones k (a / 2),
  mod_halves,
)
  where
    half_mask : ones (suc k) / 2 ≡ ones k
    half_mask = omega arith

    mod_halves : a % 2 ^ suc k ≡ a / 2 % 2 ^ k * 2 + a % 2
    mod_halves = rw (pow_double k) (mod_double a (2 ^ k) (pow-pos k))

whole : (m : ℕ) → m * 1 ≡ m
whole m = omega arith

div_one : (a : ℕ) → a / 1 ≡ a
div_one a = omega arith

-- A mask whose `k` lowest bits are clear.
pub bit_and-shl : (k a m : ℕ) → bit_and a (m * 2 ^ k) ≡ bit_and (a / 2 ^ k) m * 2 ^ k
bit_and-shl zero a m =
    omega (arith, ap (λ (t : ℕ). bit_and a t) (whole m), ap (λ (t : ℕ). bit_and t m) (div_one a))
bit_and-shl (suc k) a m = omega (
  arith,
  bit_and_step a (m * 2 ^ suc k),
  ap (λ (t : ℕ). m * t) (pow_double k),
  ap (λ (t : ℕ). bit_and (a / 2) t) half_shift,
  bit_and-shl k (a / 2) m,
  ap (λ (t : ℕ). bit_and t m * 2 ^ k) quotients,
  ap (λ (t : ℕ). bit_and (a / 2 ^ suc k) m * t) (pow_double k),
)
  where
    half_shift : m * 2 ^ suc k / 2 ≡ m * 2 ^ k
    half_shift = omega (arith, ap (λ (t : ℕ). m * t) (pow_double k))

    quotients : a / 2 / 2 ^ k ≡ a / 2 ^ suc k
    quotients = rw (pow-succ', div-div-eq-div-mul)

bit_or_comm_below : (n a b : ℕ) → a ≤ n → b ≤ n → bit_or a b ≡ bit_or b a
bit_or_comm_below zero zero zero p q = refl
bit_or_comm_below zero (suc a) b p q = absurd (omega arith)
bit_or_comm_below zero zero (suc b) p q = absurd (omega arith)
bit_or_comm_below (suc n) a b p q = omega (
  arith,
  bit_or_step a b,
  bit_or_step b a,
  bit_or_comm_below n (a / 2) (b / 2) (omega arith) (omega arith),
)

pub bit_or_comm : (a b : ℕ) → bit_or a b ≡ bit_or b a
bit_or_comm a b = bit_or_comm_below (a + b) a b (omega arith) (omega arith)
