-- ===== src/Base/Bits.antt =====
-- Bitwise `or` of fields that do not overlap, as a sum, at every width.
use Prim.Native.Nat.{
  ℕ, zero, suc, ◌+◌, ◌*◌, ◌/◌, ◌%◌, ◌^◌, ◌≤◌, ◌<◌, max, bit_or, digits, bit_or-bitwise,
}
use mathlib.Core.Path.{◌≡◌, refl, ap}
use native.Mathlib.Nat.{pow-suc}
use native.Mathlib.Omega.{arith}

abbrev or_digits : ℕ → ℕ → ℕ → ℕ
or_digits n a b = digits (λ b. b) max n a b

-- The recursion on binary digits gives the same with any fuel that suffices.
or_digits_fuel : (n m a b : ℕ) → a ≤ n → a ≤ m → or_digits n a b ≡ or_digits m a b
or_digits_fuel zero zero a b p q = refl
or_digits_fuel zero (suc m) zero b p q = refl
or_digits_fuel zero (suc m) (suc a) b p q = absurd (omega arith)
or_digits_fuel (suc n) zero zero b p q = refl
or_digits_fuel (suc n) zero (suc a) b p q = absurd (omega arith)
or_digits_fuel (suc n) (suc m) zero b p q = refl
or_digits_fuel (suc n) (suc m) (suc a) b p q =
    omega (arith, or_digits_fuel n m (suc a / 2) (b / 2) (omega arith) (omega arith))

zero-bit_or : (b : ℕ) → bit_or 0 b ≡ b
zero-bit_or b = bit_or-bitwise 0 b

-- The lowest digit of `bit_or`, and the rest.
bit_or_split : (a b : ℕ) → bit_or a b ≡ bit_or (a / 2) (b / 2) * 2 + max (a % 2) (b % 2)
bit_or_split zero b = omega (arith, zero-bit_or b, zero-bit_or (b / 2))
bit_or_split (suc a) b = omega (
  arith,
  bit_or-bitwise (suc a) b,
  bit_or-bitwise (suc a / 2) (b / 2),
  or_digits_fuel a (suc a / 2) (suc a / 2) (b / 2) (omega arith) (omega arith),
)

bit_or-zero_below : (n a : ℕ) → a ≤ n → bit_or a 0 ≡ a
bit_or-zero_below n zero h = refl
bit_or-zero_below zero (suc a) h = absurd (omega arith)
bit_or-zero_below (suc n) (suc a) h =
    omega (arith, bit_or_split (suc a) 0, bit_or-zero_below n (suc a / 2) (omega arith))

-- A field shifted past `w` bits, joined with one that fits them.
pub bit_or-disjoint :
    (w high low : ℕ) → low < 2 ^ w → bit_or (high * 2 ^ w) low ≡ high * 2 ^ w + low
bit_or-disjoint zero high zero h =
    omega (arith, bit_or-zero_below (high * 1) (high * 1) (omega arith))
bit_or-disjoint zero high (suc low) h = absurd (omega arith)
bit_or-disjoint (suc w) high low h = omega (
  arith,
  pow-suc 2 w,
  ap (λ (t : ℕ). high * t) (pow-suc 2 w),
  bit_or_split (high * 2 ^ suc w) low,
  ap (λ (t : ℕ). bit_or t (low / 2)) halved,
  bit_or-disjoint w high (low / 2) (omega (arith, pow-suc 2 w)),
)
  where
    halved : high * 2 ^ suc w / 2 ≡ high * 2 ^ w
    halved = omega (arith, ap (λ (t : ℕ). high * t) (pow-suc 2 w))
