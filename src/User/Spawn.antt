-- ===== src/User/Spawn.antt =====
-- user/spawn.c: `init_stack`, on the memory of user/string.c. The arguments are the pointers of `argv` up
-- to its null pointer. What the three system calls answer is an argument: whether they succeed, or with
-- which error they fail; sys_mem_alloc clears the page, and sys_mem_map makes it the child's stack.
pub mod Words
pub mod Stack
pub mod Frame
pub mod Load
use demo2s.Base.{
  ℕ, ◌+◌, ◌-◌, ◌*◌, ◌/◌, ◌%◌, ◌^◌, Bool, true, false, Option, none, some, List, [], ◌∷◌, ltb,
  if◌then◌else◌, update, u32, length, Error, no_mem, Ret, ok, err,
}
use demo2s.Kern.Mmu.{by2pg, ustacktop}
use demo2s.User.Str.{Bytes, strlen, strcpy, bzero}

abbrev pub tmppage : ℕ
tmppage = 4096

abbrev pub tmppagetop : ℕ
tmppagetop = 8192

-- A word of four bytes, the lowest one first
unfoldable pub load_word : Bytes → ℕ → ℕ
load_word m a = m a + 256 * (m (a + 1) + 256 * (m (a + 2) + 256 * m (a + 3)))

unfoldable pub store_word : Bytes → ℕ → ℕ → Bytes
store_word m a w =
    update
      (update (update (update m a (w % 256)) (a + 1) (w / 256 % 256)) (a + 2) (w / 65536 % 256))
      (a + 3) (w / 16777216 % 256)

-- `ROUND(n, 4)`
abbrev pub round4 : ℕ → ℕ
round4 n = u32 (n + 3) / 4 * 4

-- `tot`, from the count so far
unfoldable pub count_args : ℕ → Bytes → List ℕ → ℕ → Option ℕ
count_args room m [] tot = some tot
count_args room m (p ∷ argv) tot = elim (strlen room m p) [
  | none ↦ none
  | some n ↦ count_args room m argv (u32 (tot + n + 1))
]

-- The loop that copies the strings and stores their addresses in the child
unfoldable pub copy_args : ℕ → Bytes → ℕ → ℕ → List ℕ → Option Bytes
copy_args room m strings args [] = some m
copy_args room m strings args (p ∷ argv) = elim (strcpy room m strings p) [
  | none ↦ none
  | some m1 ↦
      let m2 = store_word m1 args (u32 (strings + (ustacktop - tmppagetop))) in
      elim (strlen room m2 p) [
        | none ↦ none
        | some n ↦ copy_args room m2 (u32 (strings + n + 1)) (args + 4) argv
      ]
]

-- The caller's memory, whether TMPPAGE is mapped there, and the child's stack page by the child's
-- addresses.
pub record Parent : Type 0 where
  pub mem : Bytes
  pub tmp : Bool
  pub stack : Option Bytes

pub record Answers : Type 0 where
  pub alloc : Option Error
  pub map_page : Option Error
  pub unmap : Option Error
  pub unmap_error : Option Error

abbrev pub unmapped : Option Error → Parent → Parent
unmapped none s = record s { tmp = false }
unmapped (some e) s = s

-- sys_mem_map and what follows it, for a child that starts at `esp`
abbrev pub finish_stack : Answers → ℕ → Parent → Ret ℕ × Parent
finish_stack r esp s = elim r.map_page [
  | some e ↦ (err e, unmapped r.unmap_error s)
  | none ↦
      let shared = record s { stack = some (λ i. s.mem (i + tmppagetop - ustacktop)) } in
      elim r.unmap [
        | some e ↦ (err e, unmapped r.unmap_error shared)
        | none ↦ (ok esp, unmapped none shared)
      ]
]

-- The addresses of `args`, here and in the child
abbrev pub args_at : ℕ → ℕ → ℕ
args_at tot argc = u32 (tmppagetop + 2 ^ 32 - u32 (round4 tot + 4 * (argc + 1)))

abbrev pub child_args : ℕ → ℕ → ℕ
child_args tot argc = u32 (ustacktop + 2 ^ 32 - u32 (round4 tot + 4 * (argc + 1)))

-- args[argc], args[-1] and args[-2]
abbrev pub store_frame : Bytes → ℕ → ℕ → Bytes
store_frame m tot argc =
    let a = args_at tot argc in
    store_word (store_word (store_word m (a + 4 * argc) 0) (a - 4) (child_args tot argc)) (a - 8)
      argc

unfoldable pub fill_stack : Answers → ℕ → List ℕ → ℕ → Parent → Option (Ret ℕ × Parent)
unfolding copy_args store_word
fill_stack r room argv tot s =
    let m = bzero by2pg s.mem tmppage in
    let argc = length argv in
    elim (copy_args room m (u32 (tmppagetop + 2 ^ 32 - tot)) (args_at tot argc) argv) [
      | none ↦ none
      | some m' ↦ some (
          finish_stack r (child_args tot argc - 8)
            (record s { mem = store_frame m' tot argc; tmp = true }))
    ]

abbrev pub with_total : Answers → ℕ → List ℕ → Parent → Option ℕ → Option (Ret ℕ × Parent)
with_total r room argv s none = none
with_total r room argv s (some tot) =
    if ltb by2pg (u32 (round4 tot + 4 * (length argv + 3)))
    then some (err no_mem, s)
    else elim r.alloc [ some e ↦ some (err e, s) | none ↦ fill_stack r room argv tot s ]

unfoldable pub init_stack : Answers → ℕ → List ℕ → Parent → Option (Ret ℕ × Parent)
unfolding count_args fill_stack
init_stack r room argv s = with_total r room argv s (count_args room s.mem argv 0)
