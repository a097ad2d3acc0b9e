-- ===== src/Fs/File.antt =====
-- fs/fs.c, the blocks of a file. A `struct File *` is the block and the word where the node starts; its
-- fields follow the layout of inc/fs.h.
use demo2s.Base.{
  ℕ, zero, suc, ◌+◌, ◌-◌, ◌*◌, ◌/◌, ◌%◌, Bool, true, false, not, ◌&&◌, Option, none, some, M, done,
  pure, ◌>>=◌, ◌>>◌, get, modify, try, Ret, ok, err, inval, not_found, ◌==◌, ltb, leb,
  if◌then◌else◌, u32,
}
use demo2s.Fs.State.{Ptr, Server, peek, poke, by2blk}
use demo2s.Fs.Blocks.{alloc_block, read_block, write_block, free_block, block_is_dirty}

-- `&f->f_size` and so on: the name takes the first 32 words.
abbrev pub f_size : Ptr → Ptr
f_size (b, o) = (b, o + 32)

abbrev pub f_type : Ptr → Ptr
f_type (b, o) = (b, o + 33)

abbrev pub f_direct : ℕ → Ptr → Ptr
f_direct n (b, o) = (b, o + 34 + n)

abbrev pub f_indirect : Ptr → Ptr
f_indirect (b, o) = (b, o + 44)

abbrev pub f_dir : Ptr → Ptr
f_dir (b, o) = (b, o + 45)

-- A pointer stored in a word, and read back; 0 is the null pointer. DISKMAP is 0x10000000.
abbrev pub address : Ptr → ℕ
address (b, o) = 0x10000000 + b * 4096 + o * 4

abbrev pub pointer : ℕ → Option Ptr
pointer w = if w == 0 then none else some ((w - 0x10000000) / 4096, (w - 0x10000000) % 4096 / 4)

abbrev pub ndirect : ℕ
ndirect = 10

abbrev pub nindirect : ℕ
nindirect = 1024

abbrev pub file2blk : ℕ
file2blk = 16

abbrev pub ftype_dir : ℕ
ftype_dir = 1

-- The indirect block, allocated if the file has none and `alloc` is set.
unfoldable pub indirect_block : Ptr → Bool → M Server (Ret ℕ)
indirect_block f alloc s =
    if not (peek s (f_indirect f) == 0)
    then done (ok (peek s (f_indirect f))) s
    else if not alloc
    then done (err not_found) s
    else (try alloc_block λ r. do modify (poke (f_indirect f) r); pure (ok r)) s

unfoldable pub file_block_walk : Ptr → ℕ → Bool → M Server (Ret Ptr)
unfolding indirect_block
file_block_walk f filebno alloc s =
    if ltb filebno ndirect
    then done (ok (f_direct filebno f)) s
    else if ltb filebno nindirect
    then (try (indirect_block f alloc) λ ind. try (read_block ind) λ _. pure (ok (ind, filebno))) s
    else done (err inval) s

unfoldable pub file_map_block : Ptr → ℕ → Bool → M Server (Ret ℕ)
unfolding file_block_walk
file_map_block f filebno alloc = try (file_block_walk f filebno alloc) λ ptr s.
    if not (peek s ptr == 0)
    then done (ok (peek s ptr)) s
    else if not alloc
    then done (err not_found) s
    else (try alloc_block λ r. do modify (poke ptr r); pure (ok r)) s

unfoldable pub file_clear_block : Ptr → ℕ → M Server (Ret (Unit {0}))
unfolding file_block_walk
file_clear_block f filebno = try (file_block_walk f filebno false) λ ptr s.
    if peek s ptr == 0
    then done (ok tt) s
    else (do free_block (peek s ptr); modify (poke ptr 0); pure (ok tt)) s

-- The loop over the files of a directory block that was loaded: `left` of them from the j-th on.
unfoldable pub set_dirs : Ptr → ℕ → ℕ → ℕ → Server → Server
set_dirs f b zero j s = s
set_dirs f b (suc left) j s = set_dirs f b left (j + 1) (poke (b, 64 * j + 45) (address f) s)

-- The value is the block in memory, `*blk`.
unfoldable pub file_get_block : Ptr → ℕ → M Server (Ret ℕ)
unfolding file_map_block set_dirs
file_get_block f filebno = try (file_map_block f filebno true) λ diskbno.
    try (read_block diskbno) λ (b, isnew) s.
      if isnew && peek s (f_type f) == ftype_dir
      then done (ok b) (set_dirs f b file2blk 0 s)
      else done (ok b) s

-- The first byte is written to itself, which makes the block dirty.
unfoldable pub file_dirty : Ptr → ℕ → M Server (Ret (Unit {0}))
unfolding file_get_block
file_dirty f offset =
    try (file_get_block f (offset / by2blk)) λ b s. done (ok tt) (poke (b, 0) (peek s (b, 0)) s)

-- `(n+BY2BLK-1)/BY2BLK` on 32-bit words
abbrev pub blocks_of : ℕ → ℕ
blocks_of n = u32 (n + 4095) / by2blk

-- The loop of `file_truncate`, which drops the errors.
unfoldable pub clear_from : Ptr → ℕ → ℕ → M Server (Unit {0})
clear_from f zero bno = pure tt
clear_from f (suc left) bno = do _ ← file_clear_block f bno; clear_from f left (bno + 1)

unfoldable pub file_truncate : Ptr → ℕ → M Server (Unit {0})
unfolding clear_from
file_truncate f newsize = do
  s ← get
  let old_nblocks = blocks_of (peek s (f_size f))
  let new_nblocks = blocks_of newsize
  modify (poke (f_size f) newsize)
  clear_from f (old_nblocks - new_nblocks) new_nblocks
  λ s.
      if ltb ndirect old_nblocks && leb new_nblocks ndirect
      then free_block (peek s (f_indirect f)) s
      else done tt s

-- The loop of `file_flush`, which ends at the first block that is missing.
unfoldable pub flush_from : Ptr → ℕ → ℕ → M Server (Unit {0})
flush_from f zero i = pure tt
flush_from f (suc left) i = do
  r ← file_map_block f i false
  elim r [
    | err _ ↦ pure tt
    | ok diskbno ↦ (do
      d ← block_is_dirty diskbno
      (λ s. if d then write_block diskbno s else done tt s)
      flush_from f left (i + 1))
  ]

unfoldable pub file_flush : Ptr → M Server (Unit {0})
unfolding flush_from
file_flush f = do s ← get; flush_from f (blocks_of (peek s (f_size f))) 0

-- `if (f->f_dir) file_flush(f->f_dir);`
unfoldable pub flush_dir : Ptr → M Server (Unit {0})
unfolding file_flush
flush_dir f = do
  s ← get
  elim (pointer (peek s (f_dir f))) [ none ↦ pure tt | some d ↦ file_flush d ]

unfoldable pub file_set_size : Ptr → ℕ → M Server (Ret (Unit {0}))
unfolding file_truncate flush_dir
file_set_size f newsize = do
  (λ s. if ltb newsize (peek s (f_size f)) then file_truncate f newsize s else done tt s)
  modify (poke (f_size f) newsize)
  flush_dir f
  pure (ok tt)

unfoldable pub file_close : Ptr → M Server (Unit {0})
unfolding file_flush flush_dir
file_close f = do file_flush f; flush_dir f
