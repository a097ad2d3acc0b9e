-- ===== src/Base/Bits.antt =====
-- Laws of `&` and `|` at variables, as arithmetic: each is a recursion on binary digits.
use Prim.Native.Nat.{
  ℕ, zero, suc, ◌+◌, ◌*◌, ◌/◌, ◌%◌, ◌^◌, ◌≤◌, ◌<◌, min, max, bit_and, bit_or, digits,
  bit_and-bitwise, bit_or-bitwise,
}
use mathlib.Core.Path.{◌≡◌, refl, ap, ap₂}
use native.Mathlib.Nat.{pow-suc}
use native.Mathlib.Omega.{arith}

-- The fuel of `digits` does not matter once it covers the number.
module _ (end : ℕ → ℕ) (digit : ℕ → ℕ → ℕ) where
  digits_same : (n m a b : ℕ) → a ≤ n → a ≤ m → digits end digit n a b ≡ digits end digit m a b
  digits_same zero zero zero b p q = refl
  digits_same zero zero (suc a) b p q = refl
  digits_same zero (suc m) zero b p q = refl
  digits_same (suc n) zero zero b p q = refl
  digits_same (suc n) (suc m) zero b p q = refl
  digits_same zero (suc m) (suc a) b p q = absurd (omega arith)
  digits_same (suc n) zero (suc a) b p q = absurd (omega arith)
  digits_same (suc n) (suc m) (suc a) b p q =
      ap (λ t. t * 2 + digit (suc a % 2) (b % 2))
        (digits_same n m (suc a / 2) (b / 2) (omega arith) (omega arith))

pub bit_or_step : (a b : ℕ) → bit_or a b ≡ bit_or (a / 2) (b / 2) * 2 + max (a % 2) (b % 2)
bit_or_step zero b = omega (arith, bit_or-bitwise 0 b, bit_or-bitwise 0 (b / 2))
bit_or_step (suc a) b = omega (
  arith,
  bit_or-bitwise (suc a) b,
  bit_or-bitwise (suc a / 2) (b / 2),
  digits_same (λ y. y) max a (suc a / 2) (suc a / 2) (b / 2) (omega arith) (omega arith),
)

pub bit_and_step : (a b : ℕ) → bit_and a b ≡ bit_and (a / 2) (b / 2) * 2 + min (a % 2) (b % 2)
bit_and_step zero b = omega (arith, bit_and-bitwise 0 b, bit_and-bitwise 0 (b / 2))
bit_and_step (suc a) b = omega (
  arith,
  bit_and-bitwise (suc a) b,
  bit_and-bitwise (suc a / 2) (b / 2),
  digits_same (λ y. 0) min a (suc a / 2) (suc a / 2) (b / 2) (omega arith) (omega arith),
)

or_zero_upto : (n a : ℕ) → a ≤ n → bit_or a 0 ≡ a
or_zero_upto zero zero h = refl
or_zero_upto (suc n) zero h = refl
or_zero_upto zero (suc a) h = absurd (omega arith)
or_zero_upto (suc n) (suc a) h =
    omega (arith, bit_or_step (suc a) 0, or_zero_upto n (suc a / 2) (omega arith))

pub bit_or-zero : (a : ℕ) → bit_or a 0 ≡ a
bit_or-zero a = or_zero_upto a a (omega arith)

and_zero_upto : (n a : ℕ) → a ≤ n → bit_and a 0 ≡ 0
and_zero_upto zero zero h = refl
and_zero_upto (suc n) zero h = refl
and_zero_upto zero (suc a) h = absurd (omega arith)
and_zero_upto (suc n) (suc a) h =
    omega (arith, bit_and_step (suc a) 0, and_zero_upto n (suc a / 2) (omega arith))

pub bit_and-zero : (a : ℕ) → bit_and a 0 ≡ 0
bit_and-zero a = and_zero_upto a a (omega arith)

-- The lowest bit: tested by `& 1`, set by `| 1`.
pub bit_and-one : (a : ℕ) → bit_and a 1 ≡ a % 2
bit_and-one a = omega (arith, bit_and_step a 1, bit_and-zero (a / 2))

pub bit_or-one : (a : ℕ) → bit_or a 1 ≡ a / 2 * 2 + 1
bit_or-one a = omega (arith, bit_or_step a 1, bit_or-zero (a / 2))

-- `|` below a shifted field is a sum.
pub bit_or_field : (k q r : ℕ) → r < 2 ^ k → bit_or (q * 2 ^ k) r ≡ q * 2 ^ k + r
bit_or_field zero q r h = ground (arith, bit_or-zero q)
bit_or_field (suc k) q r h = ground (
  arith,
  bit_or_step (q * 2 ^ suc k) r,
  ap (λ (t : ℕ). q * t) (pow-suc 2 k),
  bit_or_field k q (r / 2) (omega (arith, pow-suc 2 k)),
)

-- `|` of the high digits is what is left of `|` by a shift.
bit_or-shift_four : (a b : ℕ) → bit_or a b / 16 ≡ bit_or (a / 16) (b / 16)
bit_or-shift_four a b = omega (
  arith,
  bit_or_step a b,
  bit_or_step (a / 2) (b / 2),
  bit_or_step (a / 2 / 2) (b / 2 / 2),
  bit_or_step (a / 2 / 2 / 2) (b / 2 / 2 / 2),
  sixteenth a,
  sixteenth b,
  ap₂ bit_or (sixteenth a) (sixteenth b),
)
  where
    sixteenth : (n : ℕ) → n / 2 / 2 / 2 / 2 ≡ n / 16
    sixteenth n = omega arith

-- Setting bits below the page number keeps the page number.
pub bit_or-frame : (a r : ℕ) → r < 4096 → bit_or a r / 4096 ≡ a / 4096
bit_or-frame a r h = omega (
  arith,
  bit_or-shift_four a r,
  bit_or-shift_four (a / 16) (r / 16),
  bit_or-shift_four (a / 16 / 16) (r / 16 / 16),
  ap (bit_or (a / 16 / 16 / 16)) gone,
  bit_or-zero (a / 16 / 16 / 16),
)
  where
    gone : r / 16 / 16 / 16 ≡ 0
    gone = omega arith
