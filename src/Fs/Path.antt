-- ===== src/Fs/Path.antt =====
-- The elements of a path of fs/fs.c, and how they are looked up one in another.
pub mod Lookup
use demo2s.Base.{
  ℕ, zero, suc, ◌≤◌, ◌<◌, ◌≡◌, refl, ap, ◌∙◌, Bool, true, false, not, List, [], ◌∷◌, ◌++◌, ◌==◌,
  leb, length, Bool-cases, inl, inr, Option, none, some, Run, M, done, leave, panic, pure, and_then,
  ◌>>=◌, Ret, ok, err, bad_path, not_found, if◌then◌else◌, if_true, arith,
}
use demo2s.Fs.State.{Ptr, Server, peek}
use demo2s.Fs.File.{f_type, ftype_dir}
use demo2s.Fs.Dir.{
  dir_lookup, skip_slash, name_of, after_name, Walk, found, failed, lookup_failed, walk_step,
  walk_from, walk_path,
}

-- The path's elements, that is what stands between slashes.
unfoldable pub starts_inside : List ℕ → Bool
starts_inside [] = false
starts_inside (c ∷ cs) = not (c == 47)

unfoldable pub add_char : ℕ → Bool → List (List ℕ) → List (List ℕ)
add_char c true (e ∷ es) = (c ∷ e) ∷ es
add_char c true [] = (c ∷ []) ∷ []
add_char c false es = (c ∷ []) ∷ es

unfoldable pub elements : List ℕ → List (List ℕ)
unfolding starts_inside add_char
elements [] = []
elements (c ∷ cs) = if c == 47 then elements cs else add_char c (starts_inside cs) (elements cs)

abbrev pub is_last : List (List ℕ) → Bool
is_last [] = true
is_last (e ∷ es) = false

-- Looking up a list of names, each in what was found for the one before it
unfoldable pub walk_names : Option Ptr → Ptr → List (List ℕ) → M Server Walk
walk_names dir file [] s = done (found dir file) s
walk_names dir file (name ∷ rest) s =
    if leb 128 (length name)
    then done (failed bad_path) s
    else if not (peek s (f_type file) == ftype_dir)
    then done (failed not_found) s
    else (do
      r ← dir_lookup file name
      elim r [
        | ok f ↦ walk_names (some file) f rest
        | err e ↦ pure (lookup_failed file name (is_last rest) e)
      ])
        s

abbrev pub NoSlash : List ℕ → Type 0
NoSlash [] = Unit {0}
NoSlash (c ∷ cs) = ((c == 47) ≡ false) × NoSlash cs

-- The name of a file: some characters, none of them a slash.
abbrev pub IsName : List ℕ → Type 0
IsName [] = ⊥
IsName (c ∷ cs) = NoSlash (c ∷ cs)

abbrev pub AreNames : List (List ℕ) → Type 0
AreNames [] = Unit {0}
AreNames (e ∷ es) = IsName e × AreNames es

-- A path with two slashes before each element and one at its end.
abbrev pub join : List (List ℕ) → List ℕ
join [] = 47 ∷ []
join (e ∷ es) = 47 ∷ 47 ∷ (e ++ join es)

AreNames-add_char :
    (c : ℕ) (b : Bool) (es : List (List ℕ))
    → (c == 47) ≡ false
    → AreNames es
    → AreNames (add_char c b es)
unfolding add_char
AreNames-add_char c true [] n h = ((n, tt), tt)
AreNames-add_char c true ([] ∷ es) n h = absurd (h.0)
AreNames-add_char c true ((d ∷ e) ∷ es) n h = ((n, h.0), h.1)
AreNames-add_char c false es n h = ((n, tt), h)

-- Each element has at least one character, and no slash.
pub elements-AreNames : (path : List ℕ) → AreNames (elements path)
unfolding elements
elements-AreNames [] = tt
elements-AreNames (c ∷ cs) = elim (Bool-cases (c == 47)) [
  | inl e ↦ rw e (elements-AreNames cs)
  | inr e ↦ rw e (AreNames-add_char c (starts_inside cs) (elements cs) e (elements-AreNames cs))
]

join_starts : (es : List (List ℕ)) → starts_inside (join es) ≡ false
unfolding starts_inside
join_starts [] = refl
join_starts (e ∷ es) = refl

-- One name before a path that starts with a slash.
elements-name :
    (c : ℕ) (e : List ℕ) (es : List (List ℕ))
    → NoSlash (c ∷ e)
    → elements (join es) ≡ es
    → elements (c ∷ (e ++ join es)) ≡ (c ∷ e) ∷ es
unfolding elements add_char starts_inside
elements-name c [] es n h = rw (n.0, join_starts es, h) refl
elements-name c (d ∷ e) es n h = rw (n.0, elements-name d e es n.1 h, n.1.0) refl

-- Every list of names is that of the elements of a path, with slashes doubled or not.
pub elements-join : (es : List (List ℕ)) → AreNames es → elements (join es) ≡ es
unfolding elements
elements-join [] h = refl
elements-join ([] ∷ es) h = absurd (h.0)
elements-join ((c ∷ e) ∷ es) h = elements-name c e es h.0 (elements-join es h.1)
