-- ===== src/Fs/Blocks.antt =====
-- fs/fs.c, the block cache and the block bitmap. A block's address is its number here, so the functions
-- that return an address return the number. Where the source dereferences the null pointer `super` or
-- `bitmap`, the fault stops the server.
use demo2s.Base.{
  ℕ, zero, suc, ◌+◌, ◌-◌, ◌/◌, ◌%◌, ◌^◌, Bool, true, false, not, ◌&&◌, ◌||◌, M, done, panic, pure,
  ◌>>=◌, ◌>>◌, get, modify, try, Ret, ok, err, no_mem, no_disk, update, ◌==◌, ltb, leb,
  if◌then◌else◌, bit_and, bit_or, u32,
}
use demo2s.Base.TestBit.{testbit}
use demo2s.Fs.State.{Server, peek, poke, by2blk, s_magic, s_nblocks, fs_magic, bitmap_ptr}

-- `super && blockno >= super->s_nblocks`
abbrev pub beyond : Server → ℕ → Bool
beyond s b = s.has_super && leb (s_nblocks s) b

unfoldable pub diskaddr : ℕ → M Server ℕ
diskaddr b s = if beyond s b then panic else done b s

unfoldable pub block_is_mapped : ℕ → M Server Bool
unfolding diskaddr
block_is_mapped b = do va ← diskaddr b; s ← get; pure (s.mapped va)

unfoldable pub block_is_dirty : ℕ → M Server Bool
unfolding diskaddr
block_is_dirty b = do va ← diskaddr b; s ← get; pure (s.mapped va && s.dirty va)

-- `sys_mem_alloc(0, va, PTE_U|PTE_P|PTE_W)`: a page of zeros that is not dirty.
unfoldable pub sys_mem_alloc : ℕ → M Server (Ret (Unit {0}))
sys_mem_alloc b s =
    if s.grants s.asked
    then done (ok tt) (record s {
      mem = update s.mem b (λ _. 0);
      mapped = update s.mapped b true;
      dirty = update s.dirty b false;
      asked = s.asked + 1;
    })
    else done (err no_mem) (record s { asked = s.asked + 1 })

-- Eight sectors of 512 bytes from the disk to the block's page, and back.
abbrev pub ide_read : ℕ → Server → Server
ide_read b s = record s { mem = update s.mem b (s.disk b); dirty = update s.dirty b true }

abbrev pub ide_write : ℕ → Server → Server
ide_write b s = record s { disk = update s.disk b (s.mem b) }

unfoldable pub map_block : ℕ → M Server (Ret (Unit {0}))
unfolding block_is_mapped diskaddr
map_block b = do
  m ← block_is_mapped b
  λ s. if m then done (ok tt) s else (do va ← diskaddr b; sys_mem_alloc va) s

-- The bit of a block in the bitmap.
abbrev pub bit : Server → ℕ → Bool
bit s b = testbit (peek s (bitmap_ptr (b / 32))) (b % 32)

unfoldable pub block_is_free : ℕ → M Server Bool
block_is_free b s =
    if not s.has_super || leb (s_nblocks s) b
    then done false s
    else if not s.has_bitmap
    then panic
    else done (bit s b) s

-- The result is the block with `isnew`.
unfoldable pub read_block : ℕ → M Server (Ret (ℕ × Bool))
unfolding block_is_mapped diskaddr block_is_free
read_block b = do
  s ← get
  (λ s. if beyond s b then panic else done tt s)
  f ← (λ s. if s.has_bitmap then block_is_free b s else done false s)
  (λ s. if f then panic else done tt s)
  m ← block_is_mapped b
  λ s.
      if m
      then done (ok (b, false)) s
      else (do
        va ← diskaddr b
        try (sys_mem_alloc va) λ _. do modify (ide_read va); pure (ok (va, true)))
          s

unfoldable pub write_block : ℕ → M Server (Unit {0})
unfolding block_is_mapped block_is_dirty diskaddr
write_block b = do
  m ← block_is_mapped b
  (λ s. if m then done tt s else panic)
  d ← block_is_dirty b
  λ s.
      if not d
      then done tt s
      else (do
        va ← diskaddr b
        modify (ide_write va)
        modify (λ s. record s { dirty = update s.dirty va false }))
          s

unfoldable pub unmap_block : ℕ → M Server (Unit {0})
unfolding block_is_mapped block_is_free block_is_dirty diskaddr
unmap_block b = do
  m ← block_is_mapped b
  λ s.
      if not m
      then done tt s
      else (do
        f ← block_is_free b
        d ← (λ s. if f then done false s else block_is_dirty b s)
        (λ s. if d then panic else done tt s)
        va ← diskaddr b
        modify (λ s. record s { mapped = update s.mapped va false }))
          s

-- `bitmap[b / 32] |= 1 << (b % 32)` and `bitmap[b / 32] &= ~(1 << (b % 32))`
abbrev pub set_bit : ℕ → Server → Server
set_bit b s = poke (bitmap_ptr (b / 32)) (bit_or (peek s (bitmap_ptr (b / 32))) (2 ^ (b % 32))) s

abbrev pub clear_bit : ℕ → Server → Server
clear_bit b s =
    poke (bitmap_ptr (b / 32)) (bit_and (peek s (bitmap_ptr (b / 32))) (2 ^ 32 - 1 - 2 ^ (b % 32)))
      s

unfoldable pub free_block : ℕ → M Server (Unit {0})
free_block b s = if b == 0 || not s.has_bitmap then panic else done tt (set_bit b s)

-- The loop of `alloc_block_num`, on `left` blocks from b on.
unfoldable pub alloc_from : ℕ → ℕ → M Server (Ret ℕ)
alloc_from zero b s = done (err no_disk) s
alloc_from (suc left) b s =
    let rest = alloc_from left (b + 1) s in
    if not s.has_bitmap then panic else if bit s b then done (ok b) (clear_bit b s) else rest

unfoldable pub alloc_block_num : M Server (Ret ℕ)
unfolding alloc_from
alloc_block_num s = if not s.has_super then panic else alloc_from (s_nblocks s - 2) 2 s

unfoldable pub alloc_block : M Server (Ret ℕ)
unfolding alloc_block_num map_block free_block
alloc_block =
    try alloc_block_num λ b. do
      r ← map_block b
      elim r [ ok _ ↦ pure (ok b) | err e ↦ (do free_block b; pure (err e)) ]

-- `super` is set before the magic number is checked.
unfoldable pub read_super : M Server (Unit {0})
unfolding read_block
read_super = do
  r ← read_block 1
  (λ s. elim r [ ok _ ↦ done tt (record s { has_super = true }) | err _ ↦ panic ])
  λ s.
      if not (s_magic s == fs_magic)
      then panic
      else if ltb (0xc0000000 / by2blk) (s_nblocks s)
      then panic
      else done tt s

-- The other blocks of the bitmap.
unfoldable pub read_bitmap_from : ℕ → ℕ → M Server (Unit {0})
read_bitmap_from zero i = pure tt
read_bitmap_from (suc left) i = do
  r ← read_block (2 + i)
  elim r [ ok _ ↦ read_bitmap_from left (i + 1) | err _ ↦ (λ _. panic) ]

-- `bitmap` is set by the first `read_block`, also when that fails.
unfoldable pub read_bitmap : M Server (Unit {0})
unfolding read_block read_bitmap_from block_is_free
read_bitmap = do
  s ← get
  (λ s. if s.has_super then done tt s else panic)
  let nbitmap = u32 (s_nblocks s + 32767) / 32768
  r ← read_block 2
  (λ s. elim r [ ok _ ↦ done tt (record s { has_bitmap = true }) | err _ ↦ panic ])
  read_bitmap_from (nbitmap - 1) 1
  f ← block_is_free 0
  (λ s. if f then panic else done tt s)
  f ← block_is_free 1
  λ s. if f then panic else done tt s
