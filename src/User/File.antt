-- ===== src/User/File.antt =====
-- user/file.c: `file_read`, `file_write` and `ftruncate` on an open file. Memory is the one of user/string.c, and
-- the pages of the file are in it from the address `file` on. The answers of the server and of the kernel are
-- arguments: `fails k` is the error of the k-th call, and `content` the bytes of the file's pages as the server
-- gives them.
pub mod Bytes
pub mod Grow
pub mod Writes
use demo2s.Base.{
  ℕ, zero, suc, ◌+◌, ◌-◌, ◌*◌, ◌/◌, Bool, true, false, ◌&&◌, Option, none, some, ltb, leb,
  if◌then◌else◌, update, u32, Ret, ok, err, Error, no_disk, inval, ◌==◌, Run, M, done, panic,
  and_then, try, on_ok,
}
use demo2s.Kern.Mmu.{by2pg}
use demo2s.Fs.Serve.{devfile_id}
use demo2s.User.Str.{bcopy}

-- The number of bytes that are copied; the sum is a 32-bit word.
unfoldable pub read_size : ℕ → ℕ → ℕ → ℕ
read_size size n offset =
    if ltb size offset then 0 else if ltb size (u32 (offset + n)) then size - offset else n

-- `size` is the descriptor's `f_size`.
unfoldable pub file_read : ℕ → (ℕ → ℕ) → ℕ → ℕ → ℕ → ℕ → (ℕ → ℕ) × ℕ
unfolding read_size bcopy
file_read size m file buf n offset =
    (bcopy (read_size size n offset) m (file + offset) buf, read_size size n offset)

abbrev pub maxfilesize : ℕ
maxfilesize = 1024 * 4096

-- `ROUND(a, BY2PG)`
abbrev pub round_up : ℕ → ℕ
round_up a = u32 (a + 4095) / 4096 * 4096

-- The program's memory, `f_size` in the page of its descriptor, the size that the server has for the file, and
-- which of the file's pages are mapped, by their offsets.
pub record Client : Type 0 where
  pub mem : ℕ → ℕ
  pub f_size : ℕ
  pub o_size : ℕ
  pub mapped : ℕ → Bool
  pub calls : ℕ

-- One call, which has the effect if it succeeds.
abbrev pub answered : (Client → Client) → Client → Option Error → Run Client (Ret (Unit {0}))
answered effect s none = done (ok tt) (effect (record s { calls = s.calls + 1 }))
answered effect s (some e) = done (err e) (record s { calls = s.calls + 1 })

abbrev pub call : (ℕ → Option Error) → (Client → Client) → M Client (Ret (Unit {0}))
call fails effect s = answered effect s (fails s.calls)

-- fsipc_set_size, fsipc_map and sys_mem_unmap
abbrev pub set_size : ℕ → Client → Client
set_size size s = record s { o_size = size }

abbrev pub map_page : (ℕ → ℕ) → ℕ → ℕ → Client → Client
map_page content file i s = record s {
  mapped = update s.mapped i true;
  mem = λ a. if leb (file + i) a && ltb a (file + i + by2pg) then content (a - file) else s.mem a;
}

abbrev pub unmap_page : ℕ → Client → Client
unmap_page i s = record s { mapped = update s.mapped i false }

-- When a page cannot be mapped, the server gets the old size again.
abbrev pub or_restore :
    (ℕ → Option Error) → ℕ → M Client (Ret (Unit {0})) → Ret (Unit {0}) → M Client (Ret (Unit {0}))
or_restore fails oldsize next (ok u) s = next s
or_restore fails oldsize next (err e) s =
    and_then (call fails (set_size oldsize) s) (λ _ s. done (err e) s)

-- The loop over n pages from the offset i on
unfoldable pub map_from : (ℕ → Option Error) → (ℕ → ℕ) → ℕ → ℕ → ℕ → ℕ → M Client (Ret (Unit {0}))
map_from fails content file oldsize zero i s = done (ok tt) s
map_from fails content file oldsize (suc n) i s =
    and_then (call fails (map_page content file i) s)
      (or_restore fails oldsize (map_from fails content file oldsize n (i + by2pg)))

abbrev pub or_panic : M Client (Ret (Unit {0})) → Ret (Unit {0}) → M Client (Ret (Unit {0}))
or_panic next (ok u) s = next s
or_panic next (err e) s = panic

unfoldable pub unmap_from : (ℕ → Option Error) → ℕ → ℕ → M Client (Ret (Unit {0}))
unmap_from fails zero i s = done (ok tt) s
unmap_from fails (suc n) i s =
    and_then (call fails (unmap_page i) s) (or_panic (unmap_from fails n (i + by2pg)))

-- `dev` is the answer of `fd_lookup`: the descriptor's `fd_dev_id`, or an error.
abbrev pub on_device : Ret ℕ → M Client (Ret (Unit {0})) → M Client (Ret (Unit {0}))
on_device (err e) next s = done (err e) s
on_device (ok dev) next s = if dev == devfile_id then next s else done (err inval) s

unfoldable pub ftruncate : (ℕ → Option Error) → (ℕ → ℕ) → ℕ → Ret ℕ → ℕ → M Client (Ret (Unit {0}))
unfolding map_from unmap_from
ftruncate fails content file dev size s =
    let old = s.f_size in
    if ltb maxfilesize size
    then done (err no_disk) s
    else on_device dev
        (try (call fails (set_size size)) (λ _.
          try
            (map_from fails content file old ((round_up size - round_up old) / by2pg)
              (round_up old))
            (λ _. unmap_from fails ((round_up old - round_up size) / by2pg) (round_up size))))
        s

abbrev pub copied : ℕ → ℕ → ℕ → Client → Run Client (Ret ℕ)
copied to buf n s = done (ok n) (record s { mem = bcopy n s.mem buf to })

unfoldable pub file_write : (ℕ → Option Error) → (ℕ → ℕ) → ℕ → Ret ℕ → ℕ → ℕ → ℕ → M Client (Ret ℕ)
unfolding ftruncate bcopy
file_write fails content file dev buf n offset s =
    if ltb maxfilesize (u32 (offset + n))
    then done (err no_disk) s
    else if ltb s.f_size (u32 (offset + n))
    then try (ftruncate fails content file dev (u32 (offset + n)))
        (λ _. copied (file + offset) buf n) s
    else copied (file + offset) buf n s
