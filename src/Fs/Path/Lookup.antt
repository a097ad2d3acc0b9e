-- ===== src/Fs/Path/Lookup.antt =====
-- `walk_path` of fs/fs.c looks up the elements of the path.
use demo2s.Base.{
  ℕ, zero, suc, ◌≤◌, ◌≡◌, refl, sym, ap, ◌∙◌, true, false, not, List, [], ◌∷◌, ◌==◌, leb, length,
  Bool-cases, inl, inr, Option, none, some, Run, M, done, leave, panic, pure, and_then, Ret, ok,
  err, if◌then◌else◌, if_true, arith, bad_path, not_found,
}
use demo2s.Fs.State.{Ptr, Server, peek}
use demo2s.Fs.File.{f_type, ftype_dir}
use demo2s.Fs.Dir.{
  dir_lookup, skip_slash, name_of, after_name, Walk, failed, is_end, lookup_failed, walk_step,
  walk_from, walk_path,
}
use demo2s.Fs.Path.{
  starts_inside, add_char, elements, is_last, walk_names, AreNames, elements-AreNames,
}

elements_split :
    (c : ℕ) (cs : List ℕ)
    → (c == 47) ≡ false
    → elements (c ∷ cs) ≡ name_of (c ∷ cs) ∷ elements (after_name (c ∷ cs))
unfolding elements add_char starts_inside name_of after_name
elements_split c [] n = rw n refl
elements_split c (d ∷ cs) n = elim (Bool-cases (d == 47)) [
  | inl y ↦
      let z : elements (d ∷ cs) ≡ elements cs = rw y refl in
      rw (n, y) (ap (λ es. (c ∷ []) ∷ es) (sym z))
  | inr m ↦ let h = elements_split d cs m in rw (n, h, m) refl
]

elements-skip_slash : (cs : List ℕ) → elements (skip_slash cs) ≡ elements cs
unfolding elements skip_slash
elements-skip_slash [] = refl
elements-skip_slash (c ∷ cs) = elim (Bool-cases (c == 47)) [
  | inl y ↦ rw y (elements-skip_slash cs)
  | inr n ↦ rw n (rw n refl)
]

-- A path that starts with no slash
StartsInside : List ℕ → Type 0
StartsInside [] = Unit {0}
StartsInside (c ∷ cs) = (c == 47) ≡ false

skip_slash-StartsInside : (cs : List ℕ) → StartsInside (skip_slash cs)
unfolding skip_slash StartsInside
skip_slash-StartsInside [] = tt
skip_slash-StartsInside (c ∷ cs) = elim (Bool-cases (c == 47)) [
  | inl y ↦ rw y (skip_slash-StartsInside cs)
  | inr n ↦ rw n n
]

last_name : (cs : List ℕ) → StartsInside cs → is_last (elements cs) ≡ is_end cs
unfolding StartsInside elements
last_name [] h = refl
last_name (c ∷ cs) h = rw (elements_split c cs h) refl

skip_slash_shorter : (cs : List ℕ) → length (skip_slash cs) ≤ length cs
unfolding skip_slash
skip_slash_shorter [] = omega arith
skip_slash_shorter (c ∷ cs) = let h = skip_slash_shorter cs in ground (arith, h)

after_name_shorter : (cs : List ℕ) → length (after_name cs) ≤ length cs
unfolding after_name
after_name_shorter [] = omega arith
after_name_shorter (c ∷ cs) = let h = after_name_shorter cs in ground (arith, h)

first_shorter :
    (c : ℕ) (cs : List ℕ)
    → (c == 47) ≡ false
    → length (skip_slash (after_name (c ∷ cs))) ≤ length cs
unfolding after_name
first_shorter c cs n =
    let h = skip_slash_shorter (after_name cs) in
    let k = after_name_shorter cs in rw n (omega (arith, h, k))

-- A turn looks up one name and goes on alike, whatever the lookup gives.
step_alike :
    (next : Option Ptr → Ptr → List ℕ → M Server Walk) (file : Ptr) (name rest : List ℕ)
    (es : List (List ℕ)) (s : Server)
    → is_last es ≡ is_end rest
    → ((f : Ptr) (s : Server) → next (some file) f rest s ≡ walk_names (some file) f es s)
    → (dir : Option Ptr) → walk_step next file name rest s ≡ walk_names dir file (name ∷ es) s
unfolding walk_names
step_alike next file name rest es s last same dir =
    ap
      (λ x.
        if leb 128 (length name)
        then done (failed bad_path) s
        else if not (peek s (f_type file) == ftype_dir)
        then done (failed not_found) s
        else x)
      (alike (dir_lookup file name s))
  where
    alike :
        (x : Run Server (Ret Ptr))
        → and_then x (λ r. elim r [
          | ok f ↦ next (some file) f rest
          | err e ↦ pure (lookup_failed file name (is_end rest) e)
        ])
          ≡ and_then x (λ r. elim r [
            | ok f ↦ walk_names (some file) f es
            | err e ↦ pure (lookup_failed file name (is_last es) e)
          ])
    alike (done (ok f) s) = same f s
    alike (done (err e) s) = rw last refl
    alike (leave s) = refl
    alike panic = refl

-- As many turns as there are characters are enough.
walk_from_lem :
    (left : ℕ) (dir : Option Ptr) (file : Ptr) (path : List ℕ) (s : Server)
    → length path ≤ left
    → StartsInside path
    → walk_from left dir file path s ≡ walk_names dir file (elements path) s
unfolding walk_from walk_names elements StartsInside
walk_from_lem zero dir file [] s le h = refl
walk_from_lem (suc left) dir file [] s le h = refl
walk_from_lem zero dir file (c ∷ cs) s le h = absurd (omega (arith, le))
walk_from_lem (suc left) dir file (c ∷ cs) s le h =
    let rest = skip_slash (after_name (c ∷ cs)) in
    let inside = skip_slash-StartsInside (after_name (c ∷ cs)) in
    let shorter = first_shorter c cs h in
    step_alike (walk_from left) file (name_of (c ∷ cs)) rest (elements rest) s
      (last_name rest inside)
      (λ f s. walk_from_lem left (some file) f rest s (omega (arith, le, shorter)) inside) dir
    ∙ ap (λ es. walk_names dir file (name_of (c ∷ cs) ∷ es) s)
        (elements-skip_slash (after_name (c ∷ cs)))
    ∙ ap (λ es. walk_names dir file es s) (sym (elements_split c cs h))

-- On every path, and whatever is on the disk, `walk_path` comes to its end, and does what looking up the path's elements
-- in turn does, from the root on: names that stand between slashes, each with a character at least and
-- no slash.
pub walk_path_lem :
    (path : List ℕ) (s : Server)
    → s.has_super ≡ true
    → (walk_path path s ≡ walk_names none (1, 2) (elements path) s) × AreNames (elements path)
unfolding walk_path
walk_path_lem path s super = (
  if_true s.has_super (walk_from (length path) none (1, 2) (skip_slash path) s) panic super
      ∙ walk_from_lem (length path) none (1, 2) (skip_slash path) s (skip_slash_shorter path)
          (skip_slash-StartsInside path)
      ∙ ap (λ es. walk_names none (1, 2) es s) (elements-skip_slash path),
  elements-AreNames path,
)
