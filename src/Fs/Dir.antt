-- ===== src/Fs/Dir.antt =====
-- fs/fs.c, directories and path names. A string is the list of its characters, without the NUL.
use demo2s.Base.{
  ℕ, zero, suc, ◌+◌, ◌*◌, ◌/◌, ◌%◌, ◌^◌, Bool, true, false, not, ◌&&◌, Option, none, some, List, [],
  ◌∷◌, M, done, panic, pure, ◌>>=◌, ◌>>◌, get, modify, try, Ret, ok, err, Error, bad_path,
  file_exists, not_found, ◌==◌, leb, if◌then◌else◌, u32, length,
}
use demo2s.Fs.State.{Ptr, Server, peek, poke, by2blk}
use demo2s.Fs.File.{
  f_size, f_type, f_dir, address, file2blk, ftype_dir, file_get_block, file_truncate, file_flush,
  flush_dir,
}

-- Byte k of the string at a pointer, and a store to it.
abbrev pub byte_at : Server → Ptr → ℕ → ℕ
byte_at s (b, o) k = peek s (b, o + k / 4) / 256 ^ (k % 4) % 256

abbrev pub set_byte : Ptr → ℕ → ℕ → Server → Server
set_byte (b, o) k v s =
    let w = peek s (b, o + k / 4) in
    let low = 256 ^ (k % 4) in
    poke (b, o + k / 4) (w / (low * 256) * (low * 256) + v * low + w % low) s

-- `strcmp(f->f_name, name) == 0` from byte k on, and `strcpy(f->f_name, name)`.
unfoldable pub same_name : Server → Ptr → ℕ → List ℕ → Bool
same_name s f k [] = byte_at s f k == 0
same_name s f k (c ∷ cs) = byte_at s f k == c && same_name s f (k + 1) cs

unfoldable pub copy_name : Ptr → ℕ → List ℕ → Server → Server
copy_name f k [] s = set_byte f k 0 s
copy_name f k (c ∷ cs) s = copy_name f (k + 1) cs (set_byte f k c s)

-- The inner loops: the first of `left` files of block b, from the j-th on, that passes the test.
unfoldable pub find_in : (Ptr → Bool) → ℕ → ℕ → ℕ → Option Ptr
find_in p b zero j = none
find_in p b (suc left) j =
    let rest = find_in p b left (j + 1) in if p (b, 64 * j) then some (b, 64 * j) else rest

-- The outer loop of `dir_lookup` and `dir_alloc_file`, over `left` blocks of the directory from the
-- i-th on.
unfoldable pub find_from : (Server → Ptr → Bool) → Ptr → ℕ → ℕ → M Server (Ret (Option Ptr))
unfolding find_in
find_from p dir zero i = pure (ok none)
find_from p dir (suc left) i = try (file_get_block dir i) λ b s. elim (find_in (p s) b file2blk 0) [
  | none ↦ find_from p dir left (i + 1) s
  | some f ↦ done (ok (some f)) s
]

unfoldable pub dir_lookup : Ptr → List ℕ → M Server (Ret Ptr)
unfolding find_from same_name
dir_lookup dir name = do
  s ← get
  try (find_from (λ s f. same_name s f 0 name) dir (peek s (f_size dir) / by2blk) 0) λ o. elim o [
    | none ↦ pure (err not_found)
    | some f ↦ (do modify (poke (f_dir f) (address dir)); pure (ok f))
  ]

unfoldable pub dir_alloc_file : Ptr → M Server (Ret Ptr)
unfolding find_from
dir_alloc_file dir = do
  s ← get
  let nblock = peek s (f_size dir) / by2blk
  try (find_from (λ s f. byte_at s f 0 == 0) dir nblock 0) λ o. elim o [
    | none ↦ (do
      modify (λ s. poke (f_size dir) (u32 (peek s (f_size dir) + by2blk)) s)
      try (file_get_block dir nblock) λ b. pure (ok (b, 0)))
    | some f ↦ pure (ok f)
  ]

unfoldable pub skip_slash : List ℕ → List ℕ
skip_slash [] = []
skip_slash (c ∷ cs) = if c == 47 then skip_slash cs else c ∷ cs

-- `while (*path != '/' && *path != '\0') path++;`: what is passed, and the path behind it
unfoldable pub name_of : List ℕ → List ℕ
name_of [] = []
name_of (c ∷ cs) = if c == 47 then [] else c ∷ name_of cs

unfoldable pub after_name : List ℕ → List ℕ
after_name [] = []
after_name (c ∷ cs) = if c == 47 then c ∷ cs else after_name cs

-- What `walk_path` gives: the directory (null for the root) and the file; or the directory where the
-- last element is missing, with this element; or an error alone.
pub data Walk : Type 0 where
  found : Option Ptr → Ptr → Walk
  missing : Ptr → List ℕ → Walk
  failed : Error → Walk

abbrev pub is_end : List ℕ → Bool
is_end [] = true
is_end (c ∷ cs) = false

-- `r == -E_NOT_FOUND && *path == '\0'`
abbrev pub lookup_failed : Ptr → List ℕ → Bool → Error → Walk
lookup_failed dir name true not_found = missing dir name
lookup_failed dir name last e = failed e

-- A turn of the loop, with the name found and the path behind it, which `next` goes on with.
abbrev pub walk_step :
    (Option Ptr → Ptr → List ℕ → M Server Walk) → Ptr → List ℕ → List ℕ → M Server Walk
walk_step next file name rest s =
    if leb 128 (length name)
    then done (failed bad_path) s
    else if not (peek s (f_type file) == ftype_dir)
    then done (failed not_found) s
    else (do
      r ← dir_lookup file name
      elim r [
        | ok f ↦ next (some file) f rest
        | err e ↦ pure (lookup_failed file name (is_end rest) e)
      ])
        s

-- The loop, of `left` turns at most, with the directory and the file found so far.
unfoldable pub walk_from : ℕ → Option Ptr → Ptr → List ℕ → M Server Walk
unfolding skip_slash name_of after_name
walk_from zero dir file [] s = done (found dir file) s
walk_from (suc left) dir file [] s = done (found dir file) s
walk_from zero dir file (c ∷ cs) s = panic
walk_from (suc left) dir file (c ∷ cs) s =
    walk_step (walk_from left) file (name_of (c ∷ cs)) (skip_slash (after_name (c ∷ cs))) s

-- The root node is word 2 of the super-block. Each turn passes a character.
unfoldable pub walk_path : List ℕ → M Server Walk
unfolding walk_from skip_slash
walk_path path s =
    if s.has_super then walk_from (length path) none (1, 2) (skip_slash path) s else panic

unfoldable pub file_open : List ℕ → M Server (Ret Ptr)
unfolding walk_path
file_open path = do
  w ← walk_path path
  pure (elim w [ found _ f ↦ ok f | missing _ _ ↦ err not_found | failed e ↦ err e ])

-- When `dir_alloc_file` fails the source returns the error of `walk_path`.
unfoldable pub file_create : List ℕ → M Server (Ret Ptr)
unfolding walk_path dir_alloc_file copy_name
file_create path = do
  w ← walk_path path
  elim w [
    | found _ _ ↦ pure (err file_exists)
    | missing dir name ↦ (do
      r ← dir_alloc_file dir
      elim r [
        | err _ ↦ pure (err not_found)
        | ok f ↦ (do modify (copy_name f 0 name); pure (ok f))
      ])
    | failed e ↦ pure (err e)
  ]

unfoldable pub file_remove : List ℕ → M Server (Ret (Unit {0}))
unfolding walk_path
file_remove path = do
  w ← walk_path path
  elim w [
    | missing _ _ ↦ pure (err not_found)
    | failed e ↦ pure (err e)
    | found _ f ↦ (do
      file_truncate f 0
      modify (set_byte f 0 0)
      file_flush f
      flush_dir f
      pure (ok tt))
  ]
