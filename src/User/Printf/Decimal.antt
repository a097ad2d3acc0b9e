-- ===== src/User/Printf/Decimal.antt =====
-- The numbers of user/printf.c.
use demo2s.Base.{
  ℕ, ◌-◌, ◌^◌, ◌≤◌, ◌<◌, ◌≡◌, refl, sym, ◌∙◌, ap, Bool-cases, inl, inr, some, List, [], ◌∷◌, ◌++◌,
  ltb, if◌then◌else◌, length, if_true, if_false, arith,
}
use demo2s.Kern.Printf.{Args, arg, word, ksprintn, magnitude, plain_spec, padded}
use demo2s.Kern.Printf.Digits.{number, ksprintn_lem}
use demo2s.User.Printf.{printnum, step_of, emit_number, emit}

-- '-' for the words that are negative as an `int`
abbrev pub sign : ℕ → List ℕ
sign w = if ltb w (2 ^ 31) then [] else 45 ∷ []

printnum_same : (uq base : ℕ) → printnum uq base ≡ ksprintn uq base
unfolding printnum ksprintn
printnum_same uq base = refl

printnum_run : (w : ℕ) (ds : List ℕ) → ksprintn w 10 ≡ some ds → printnum w 10 ≡ some ds
printnum_run w ds e = printnum_same w 10 ∙ e

unpadded : (ds : List ℕ) → padded plain_spec ds ≡ ds
unpadded ds = let z : 0 - length ds ≡ 0 = omega arith in rw (z) refl

plain_number :
    (prefix : List ℕ) (uq : ℕ) (rest : Args) (ds : List ℕ)
    → printnum uq 10 ≡ some ds
    → emit_number plain_spec prefix uq 10 rest ≡ some (emit (prefix ++ ds) rest)
plain_number prefix uq rest ds e =
    let n = unpadded ds in rw (emit_number, e) (ap (λ x. some (emit (prefix ++ x) rest)) n)

decimal_step :
    (w : ℕ) (rest : Args) (ds : List ℕ)
    → printnum (magnitude w) 10 ≡ some ds
    → step_of 100 plain_spec (arg (word w) rest) ≡ some (emit (sign w ++ ds) rest)
unfolding step_of
decimal_step w rest ds e = elim (Bool-cases (ltb w (2 ^ 31))) [
  | inl p ↦
      let m : magnitude w ≡ w = if_true (ltb w (2 ^ 31)) w (2 ^ 32 - w) p in
      let s : sign w ≡ [] = if_true (ltb w (2 ^ 31)) [] (45 ∷ []) p in
      if_true (ltb w (2 ^ 31)) (emit_number plain_spec [] w 10 rest)
        (emit_number plain_spec (45 ∷ []) (2 ^ 32 - w) 10 rest) p
      ∙ plain_number [] w rest ds (ap (λ x. printnum x 10) (sym m) ∙ e)
      ∙ ap (λ x. some (emit (x ++ ds) rest)) (sym s)
  | inr p ↦
      let m : magnitude w ≡ 2 ^ 32 - w = if_false (ltb w (2 ^ 31)) w (2 ^ 32 - w) p in
      let s : sign w ≡ 45 ∷ [] = if_false (ltb w (2 ^ 31)) [] (45 ∷ []) p in
      if_false (ltb w (2 ^ 31)) (emit_number plain_spec [] w 10 rest)
        (emit_number plain_spec (45 ∷ []) (2 ^ 32 - w) 10 rest) p
      ∙ plain_number (45 ∷ []) (2 ^ 32 - w) rest ds (ap (λ x. printnum x 10) (sym m) ∙ e)
      ∙ ap (λ x. some (emit (x ++ ds) rest)) (sym s)
]

-- %d of an `int` sends '-' for a negative one, and digits that read back as its magnitude, of which
-- there are 1 to 64.
pub step_of-sign :
    (w : ℕ) (rest : Args)
    → w < 2 ^ 32
    → (ds : List ℕ) × (step_of 100 plain_spec (arg (word w) rest) ≡ some (emit (sign w ++ ds) rest))
      × (number 10 ds ≡ magnitude w)
      × (1 ≤ length ds)
      × (length ds ≤ 64)
step_of-sign w rest lt =
    let small : magnitude w < 2 ^ 64 = ground (arith, lt) in
    let (ds, run, value, one, few) =
      ksprintn_lem (magnitude w) 10 (omega arith) (omega arith) small in
    (ds, decimal_step w rest ds (printnum_run (magnitude w) ds run), value, one, few)
