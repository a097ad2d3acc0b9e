-- ===== src/Base/TestBit.antt =====
-- Single bits: `w & (1 << k)`, `w | (1 << k)` and `w & ~(1 << k)` on 32-bit words.
use Prim.Native.Nat.{ℕ, zero, suc, ◌-◌, ◌/◌, ◌%◌, ◌^◌, ◌<◌, bit_and, bit_or}
use mathlib.Core.Path.{◌≡◌, refl, ap, ◌∙◌}
use mathlib.Core.Bool.{Bool, true, false, not, ◌&&◌, ◌||◌}
use native.Mathlib.Omega.{arith}
use demo2s.Base.Tests.{◌==◌}
use demo2s.Base.Bits.{bit_and_step, bit_or_step}

-- Bit k of w.
unfoldable pub testbit : ℕ → ℕ → Bool
testbit w zero = w % 2 == 1
testbit w (suc k) = testbit (w / 2) k

pub testbit-bit_or : (k a b : ℕ) → testbit (bit_or a b) k ≡ (testbit a k || testbit b k)
unfolding testbit
testbit-bit_or zero a b = ground (arith, bit_or_step a b)
testbit-bit_or (suc k) a b =
    ap (λ w. testbit w k) (omega (arith, bit_or_step a b)) ∙ testbit-bit_or k (a / 2) (b / 2)

pub testbit-bit_and : (k a b : ℕ) → testbit (bit_and a b) k ≡ (testbit a k && testbit b k)
unfolding testbit
testbit-bit_and zero a b = ground (arith, bit_and_step a b)
testbit-bit_and (suc k) a b =
    ap (λ w. testbit w k) (omega (arith, bit_and_step a b)) ∙ testbit-bit_and k (a / 2) (b / 2)

-- Facts about all pairs of positions in a word, by evaluation.
unfoldable pub all_below : ℕ → (ℕ → Bool) → Bool
all_below zero p = true
all_below (suc n) p = p n && all_below n p

pub all_below_sound : (n x : ℕ) (p : ℕ → Bool) → all_below n p ≡ true → x < n → p x ≡ true
unfolding all_below
all_below_sound zero x p h lt = absurd (omega arith)
all_below_sound (suc n) x p h lt = ground (arith, all_below_sound n x p)

same : Bool → Bool → Bool
same true b = b
same false b = not b

eq_of_same : (a b : Bool) → same a b ≡ true → a ≡ b
unfolding same
eq_of_same true true h = refl
eq_of_same true false h = cc
eq_of_same false true h = cc
eq_of_same false false h = refl

abbrev bit_check : ℕ → ℕ → Bool
bit_check k j = same (testbit (2 ^ k) j) (k == j)

abbrev mask_check : ℕ → ℕ → Bool
mask_check k j = same (testbit (2 ^ 32 - 1 - 2 ^ k) j) (not (k == j))

bit_table : all_below 32 (λ k. all_below 32 (bit_check k)) ≡ true
unfolding all_below same testbit
bit_table = refl

mask_table : all_below 32 (λ k. all_below 32 (mask_check k)) ≡ true
unfolding all_below same testbit
mask_table = refl

pub testbit-pow : (k j : ℕ) → k < 32 → j < 32 → testbit (2 ^ k) j ≡ (k == j)
testbit-pow k j hk hj = eq_of_same _ _ (
    all_below_sound 32 j (bit_check k)
      (all_below_sound 32 k (λ k. all_below 32 (bit_check k)) bit_table hk) hj)

pub testbit-mask : (k j : ℕ) → k < 32 → j < 32 → testbit (2 ^ 32 - 1 - 2 ^ k) j ≡ not (k == j)
testbit-mask k j hk hj = eq_of_same _ _ (
    all_below_sound 32 j (mask_check k)
      (all_below_sound 32 k (λ k. all_below 32 (mask_check k)) mask_table hk) hj)
