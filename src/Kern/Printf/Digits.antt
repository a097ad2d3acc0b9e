-- ===== src/Kern/Printf/Digits.antt =====
-- `ksprintn` writes the number, in every base from 2 to 16.
use demo2s.Base.{
  ℕ, zero, suc, ◌+◌, ◌-◌, ◌*◌, ◌/◌, ◌%◌, ◌^◌, ◌≤◌, ◌<◌, ◌≡◌, refl, ap, sym, ◌∙◌, Bool-cases, inl,
  inr, false, ◌||◌, Option, none, some, List, [], ◌∷◌, arith, ◌==◌, ltb, if◌then◌else◌, length,
}
use native.Mathlib.Nat.{mod-add-div, mod-lt, div-lt_iff_lt-mul}
use demo2s.Kern.Printf.{digit, digits_from, ksprintn}

-- The value of a digit's character, and of the digits of a number, the first one first.
abbrev pub digit_value : ℕ → ℕ
digit_value c = if ltb c 58 then c - 48 else c - 87

abbrev pub number_from : ℕ → ℕ → List ℕ → ℕ
number_from base v [] = v
number_from base v (c ∷ cs) = number_from base (v * base + digit_value c) cs

abbrev pub number : ℕ → List ℕ → ℕ
number base ds = number_from base 0 ds

abbrev power_of_2 : ℕ → ℕ
power_of_2 zero = 1
power_of_2 (suc n) = power_of_2 n + power_of_2 n

digit_value-digit : (d : ℕ) → d < 16 → digit_value (digit d) ≡ d
digit_value-digit d h = ground arith

quotient_small : (uq base n : ℕ) → 2 ≤ base → uq < n + n → uq / base < n
quotient_small uq base n h lt = (div-lt_iff_lt-mul (omega arith)).1 (grind arith)

-- What the list stands for, once `uq` is written before `ds`.
step_value :
    (uq base : ℕ) (ds : List ℕ)
    → 2 ≤ base
    → base ≤ 16
    → number_from base (uq / base) (digit (uq % base) ∷ ds) ≡ number_from base uq ds
step_value uq base ds lo hi =
    ap (λ v. number_from base v ds)
      (ap (λ d. uq / base * base + d)
          (digit_value-digit (uq % base) (omega (arith, mod-lt uq {m = base} (omega arith))))
        ∙ grind (arith, mod-add-div uq base))

-- With room for `room` digits more.
Written : ℕ → ℕ → ℕ → List ℕ → Option (List ℕ) → Type 0
Written room uq base ds none = ⊥
Written room uq base ds (some r) =
    (number base r ≡ number_from base uq ds)
    × (1 + length ds ≤ length r)
    × (length r ≤ room + length ds)

widen :
    (room uq base : ℕ) (ds : List ℕ) (r : Option (List ℕ))
    → 2 ≤ base
    → base ≤ 16
    → Written room (uq / base) base (digit (uq % base) ∷ ds) r
    → Written (suc room) uq base ds r
unfolding Written
widen room uq base ds none lo hi w = w
widen room uq base ds (some r) lo hi w =
    (w.0 ∙ step_value uq base ds lo hi, omega (arith, w.1), omega (arith, w.2))

room_left : (room q : ℕ) → q < power_of_2 room → (q == 0) ≡ false → 1 ≤ room
room_left zero q lt ne = absurd (ground arith)
room_left (suc room) q lt ne = omega arith

digits_from-Written :
    (room uq base : ℕ) (ds : List ℕ)
    → 2 ≤ base
    → base ≤ 16
    → uq < power_of_2 room
    → 1 ≤ room
    → Written room uq base ds (digits_from room uq base ds)
unfolding digits_from Written
digits_from-Written zero uq base ds lo hi lt pos = absurd (omega arith)
digits_from-Written (suc room) uq base ds lo hi lt pos = elim (Bool-cases (uq / base == 0)) [
  | inl e ↦
      let z : uq / base ≡ 0 = ground arith in
      rw e (
        ap (λ q. number_from base q (digit (uq % base) ∷ ds)) (sym z) ∙ step_value uq base ds lo hi,
        omega arith,
        omega arith,
      )
  | inr e ↦
      let lt' = quotient_small uq base (power_of_2 room) lo lt in
      rw e (
        widen room uq base ds _ lo hi (
          digits_from-Written room (uq / base) base (digit (uq % base) ∷ ds) lo hi lt'
            (room_left room (uq / base) lt' e)))
]

-- `ksprintn` returns in every base from 2 to 16, on every number of 64 bits: 1 to 64 characters, which
-- the buffer has room for, and which read back in that base are the number.
pub ksprintn_lem :
    (uq base : ℕ)
    → 2 ≤ base
    → base ≤ 16
    → uq < 2 ^ 64
    → (ds : List ℕ) × (ksprintn uq base ≡ some ds)
      × (number base ds ≡ uq)
      × (1 ≤ length ds)
      × (length ds ≤ 64)
unfolding ksprintn Written
ksprintn_lem uq base lo hi lt =
    found (digits_from 64 uq base []) (shown)
      (digits_from-Written 64 uq base [] lo hi lt (omega arith))
  where
    in_range : (ltb base 2 || ltb 16 base) ≡ false
    in_range = ground arith

    shown : ksprintn uq base ≡ digits_from 64 uq base []
    shown = rw in_range refl

    found :
        (r : Option (List ℕ))
        → ksprintn uq base ≡ r
        → Written 64 uq base [] r
        → (ds : List ℕ) × (ksprintn uq base ≡ some ds)
          × (number base ds ≡ uq)
          × (1 ≤ length ds)
          × (length ds ≤ 64)
    found none e w = absurd w
    found (some ds) e w = (ds, e, w.0, omega (arith, w.1), omega (arith, w.2))
