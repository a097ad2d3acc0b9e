-- ===== src/User/Spawn/Load.antt =====
-- user/spawn.c: `spawn` itself, as its calls of the kernel and the library in order. Whether the k-th call
-- succeeds, or with which error it fails, is an argument. What a page of the child holds is named by
-- where it comes from; `size` is the program file's, and `libs` are the addresses of the caller's library
-- pages.
pub mod Segments
pub mod Failure
use demo2s.Base.{
  ℕ, zero, suc, ◌+◌, ◌-◌, ◌*◌, ◌/◌, Bool, true, false, not, Option, none, some, List, [], ◌∷◌, ◌==◌,
  if◌then◌else◌, update, u32, Run, done, M, and_then, ◌>>=◌, ◌>>◌, Error, inval, no_mem, Ret, ok,
  err, try, on_ok,
}
use demo2s.Kern.Mmu.{by2pg, utext, ustacktop}
use demo2s.User.File.{read_size, round_up}

-- inc/aout.h
pub record Aout : Type 0 where
  pub a_text : ℕ
  pub a_data : ℕ
  pub a_bss : ℕ
  pub a_entry : ℕ

-- A page of the file shared read-only, a private page with the file's bytes from an offset on, a cleared
-- page, the page that `init_stack` fills, and the same page as the caller's at that address.
pub data Content : Type 0 where
  text_of : ℕ → Content
  data_of : ℕ → Content
  zeros initial_stack inherited : Content

pub record Load : Type 0 where
  pub calls : ℕ
  pub child : ℕ → Option Content
  pub offset : ℕ
  pub tmp : Bool
  pub has_child : Bool
  pub has_frame : Bool
  pub closed : Bool
  pub runnable : Bool

-- One call, which has the effect if it succeeds.
abbrev pub answered : (Load → Load) → Load → Option Error → Run Load (Ret (Unit {0}))
answered effect s none = done (ok tt) (effect (record s { calls = s.calls + 1 }))
answered effect s (some e) = done (err e) (record s { calls = s.calls + 1 })

abbrev pub call : (ℕ → Option Error) → (Load → Load) → M Load (Ret (Unit {0}))
call fails effect s = answered effect s (fails s.calls)

abbrev pub map_child : ℕ → Content → Load → Load
map_child va c s = record s { child = update s.child va (some c) }

abbrev pub map_tmp : Load → Load
map_tmp s = record s { tmp = true }

abbrev pub unmap_tmp : Load → Load
unmap_tmp s = record s { tmp = false }

-- The `error:` of `init_stack`, which does not look at the result of its own call
abbrev pub or_unmap : (ℕ → Option Error) → Run Load (Ret (Unit {0})) → Run Load (Ret (Unit {0}))
or_unmap fails r = and_then r (λ a s. elim a [
  | ok u ↦ done (ok u) s
  | err e ↦ and_then (call fails unmap_tmp s) (λ _ s. done (err e) s)
])

abbrev pub stack_at : ℕ
stack_at = ustacktop - by2pg

-- The calls of `init_stack`; `fits` tells whether the arguments fit in its page.
unfoldable pub call_init_stack : (ℕ → Option Error) → Bool → M Load (Ret (Unit {0}))
call_init_stack fails fits s =
    if not fits
    then done (err no_mem) s
    else try (call fails map_tmp)
        (λ _ s.
          or_unmap fails
            (try (call fails (map_child stack_at initial_stack)) (λ _. call fails unmap_tmp) s))
        s

-- read_map and sys_mem_map for each page of the text
unfoldable pub map_text : (ℕ → Option Error) → ℕ → ℕ → ℕ → M Load (Ret (Unit {0}))
map_text fails zero va offset s = done (ok tt) s
map_text fails (suc n) va offset s =
    try (call fails (λ s. s))
      (λ _.
        try (call fails (map_child va (text_of offset)))
          (λ _. map_text fails n (va + by2pg) (offset + by2pg)))
      s

-- sys_mem_alloc, read and sys_mem_map for each page of the data
abbrev pub read_page : ℕ → Load → Load
read_page size s = record s { offset = s.offset + read_size size by2pg s.offset }

unfoldable pub copy_data : (ℕ → Option Error) → ℕ → ℕ → ℕ → M Load (Ret (Unit {0}))
unfolding read_size
copy_data fails size zero va s = done (ok tt) s
copy_data fails size (suc n) va s =
    try (call fails map_tmp)
      (λ _. try (call fails (read_page size)) (λ _.
        try (call fails (map_child va (data_of s.offset)))
          (λ _. copy_data fails size n (va + by2pg))))
      s

unfoldable pub clear_bss : (ℕ → Option Error) → ℕ → ℕ → M Load (Ret (Unit {0}))
clear_bss fails zero va s = done (ok tt) s
clear_bss fails (suc n) va s =
    try (call fails (map_child va zeros)) (λ _. clear_bss fails n (va + by2pg)) s

-- The results of these calls are not looked at.
unfoldable pub share_library : (ℕ → Option Error) → List ℕ → M Load (Ret (Unit {0}))
share_library fails [] s = done (ok tt) s
share_library fails (va ∷ libs) s =
    and_then (call fails (map_child va inherited) s) (λ _. share_library fails libs)

-- The ends of the segments
abbrev pub text_end : Aout → ℕ
text_end h = round_up (utext + h.a_text)

abbrev pub data_end : Aout → ℕ
data_end h = round_up (text_end h + h.a_data)

abbrev pub bss_end : Aout → ℕ
bss_end h = round_up (data_end h + h.a_bss)

-- From the trap frame on
unfoldable pub start_child : (ℕ → Option Error) → List ℕ → M Load (Ret (Unit {0}))
unfolding share_library
start_child fails libs =
    try (call fails (λ s. record s { has_frame = true }))
      (λ _. try (share_library fails libs) (λ _. call fails (λ s. record s { runnable = true })))

-- The segments and the end of the file
unfoldable pub load_child : (ℕ → Option Error) → Aout → ℕ → M Load (Ret (Unit {0}))
unfolding map_text copy_data clear_bss
load_child fails h size = try (map_text fails ((text_end h - utext) / by2pg) utext 0) (λ _.
    try (call fails (λ s. record s { offset = h.a_text })) (λ _.
      try (copy_data fails size ((data_end h - text_end h) / by2pg) (text_end h)) (λ _.
        try (clear_bss fails ((bss_end h - data_end h) / by2pg) (data_end h))
          (λ _. call fails (λ s. record s { closed = true })))))

-- open, the read of the header, sys_env_alloc and init_stack come first.
unfoldable pub spawn : (ℕ → Option Error) → Bool → Aout → ℕ → List ℕ → M Load (Ret (Unit {0}))
unfolding call_init_stack load_child start_child
spawn fails fits h size libs = try (call fails (λ s. s)) (λ _. try (call fails (λ s. s)) (λ _ s.
    if not (h.a_entry == utext + 0x20)
    then done (err inval) s
    else try (call fails (λ s. record s { has_child = true }))
        (λ _.
          try (call_init_stack fails fits)
            (λ _. try (load_child fails h size) (λ _. start_child fails libs)))
        s))
