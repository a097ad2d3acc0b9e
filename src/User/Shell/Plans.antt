-- ===== src/User/Shell/Plans.antt =====
-- The programs that `runcmd` of user/sh.c runs.
use demo2s.Base.{
  ℕ, zero, suc, ◌≤◌, ◌≡◌, Bool, true, false, Option, none, some, List, [], ◌∷◌, ◌++◌, ◌==◌,
  if◌then◌else◌, length, length-append, arith, Bool-cases, inl, inr, ◌||◌,
}
use demo2s.User.Shell.{
  Lexer, Token, Redirect, input, output, Plan, failed, run, piped, gettoken, runcmd_from, maxargs,
  redirected, pipe_to, on_token, runcmd, gettoken_first,
}
use demo2s.User.Str.{Bytes}

-- No program has more than n arguments.
pub HasAtMost : ℕ → Plan → Type 0
HasAtMost n failed = Unit {0}
HasAtMost n (run rs argv) = length argv ≤ n
HasAtMost n (piped rs argv right) = (length argv ≤ n) × HasAtMost n right

IsGood : Option Plan → Type 0
IsGood none = Unit {0}
IsGood (some p) = HasAtMost 16 p

branch-IsGood : (b : Bool) (x y : Option Plan) → IsGood x → IsGood y → IsGood (if b then x else y)
branch-IsGood true x y gx gy = gx
branch-IsGood false x y gx gy = gy

redirected-IsGood :
    (next : Lexer → List Redirect → Option Plan) (sign : ℕ) (rs : List Redirect)
    (o : Option (Token × Lexer))
    → ((l : Lexer) (rs : List Redirect) → IsGood (next l rs))
    → IsGood (redirected next sign rs o)
unfolding IsGood HasAtMost
redirected-IsGood next sign rs none g = tt
redirected-IsGood next sign rs (some (f, l)) g =
    branch-IsGood (f.kind == 119)
      (next l (rs ++ (if sign == 60 then input f.p1 else output f.p1) ∷ [])) (some failed) (g l _)
      tt

pipe_to-IsGood :
    (rs : List Redirect) (argv : List (Option ℕ)) (o : Option Plan)
    → length argv ≤ 16
    → IsGood o
    → IsGood (pipe_to rs argv o)
unfolding IsGood HasAtMost
pipe_to-IsGood rs argv none le g = tt
pipe_to-IsGood rs argv (some right) le g = (le, g)

word-IsGood :
    (next : Lexer → List Redirect → List (Option ℕ) → Option Plan) (l : Lexer) (rs : List Redirect)
    (argv : List (Option ℕ)) (p : Option ℕ)
    → ((l : Lexer) (rs : List Redirect) (argv : List (Option ℕ))
        → length argv ≤ 16
        → IsGood (next l rs argv))
    → length argv ≤ 16
    → IsGood (if length argv == maxargs then some failed else next l rs (argv ++ p ∷ []))
unfolding IsGood HasAtMost
word-IsGood next l rs argv p g le = elim (Bool-cases (length argv == maxargs)) [
  | inl y ↦ rw y tt
  | inr n ↦ rw n (g l rs (argv ++ p ∷ []) (ground (arith, n, le, length-append {0} argv (p ∷ []))))
]

on_token-IsGood :
    (next : Lexer → List Redirect → List (Option ℕ) → Option Plan) (room : ℕ) (rs : List Redirect)
    (argv : List (Option ℕ)) (o : Option (Token × Lexer))
    → ((l : Lexer) (rs : List Redirect) (argv : List (Option ℕ))
        → length argv ≤ 16
        → IsGood (next l rs argv))
    → length argv ≤ 16
    → IsGood (on_token next room rs argv o)
unfolding IsGood HasAtMost
on_token-IsGood next room rs argv none g le = tt
on_token-IsGood next room rs argv (some (t, l)) g le =
    branch-IsGood (t.kind == 0) (some (run rs argv)) _ le (
      branch-IsGood (t.kind == 119) _ _ (word-IsGood next l rs argv t.p1 g le) (
        branch-IsGood (t.kind == 60 || t.kind == 62) _ _
          (redirected-IsGood (λ l2 rs2. next l2 rs2 argv) t.kind rs (gettoken room l)
            (λ l2 rs2. g l2 rs2 argv le))
          (branch-IsGood (t.kind == 124) _ _
            (pipe_to-IsGood rs argv (next l [] []) le (g l [] [] (omega arith))) (g l rs argv le))))

runcmd_from-IsGood :
    (left room : ℕ) (l : Lexer) (rs : List Redirect) (argv : List (Option ℕ))
    → length argv ≤ 16
    → IsGood (runcmd_from left room l rs argv)
unfolding runcmd_from IsGood
runcmd_from-IsGood zero room l rs argv le = tt
runcmd_from-IsGood (suc left) room l rs argv le =
    on_token-IsGood (runcmd_from left room) room rs argv (gettoken room l)
      (λ l2 rs2 argv2 le2. runcmd_from-IsGood left room l2 rs2 argv2 le2) le

first-IsGood :
    (left room : ℕ) (o : Option Lexer)
    → IsGood (elim o as (λ _. Option Plan) [ none ↦ none | some l ↦ runcmd_from left room l [] [] ])
unfolding IsGood
first-IsGood left room none = tt
first-IsGood left room (some l) = runcmd_from-IsGood left room l [] [] (omega arith)

same-IsGood : (o : Option Plan) (p : Plan) → o ≡ some p → IsGood o → IsGood (some p)
same-IsGood o p e g = rw⁻¹ e g

-- However long the line, when `runcmd` comes to the end of it, it runs no program with more than 16 arguments.
pub runcmd_bounded :
    (left room s : ℕ) (m : Bytes) (p : Plan) → runcmd left room m s ≡ some p → HasAtMost 16 p
unfolding runcmd IsGood
runcmd_bounded left room s m p e =
    same-IsGood (runcmd left room m s) p e (first-IsGood left room (gettoken_first room m s))
