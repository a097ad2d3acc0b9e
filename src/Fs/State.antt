-- ===== src/Fs/State.antt =====
-- The file server's state. A disk block in memory is mapped at DISKMAP + n * BY2BLK, so an address
-- in a block is the block's number with the index of a 32-bit word in it. All that the source keeps
-- in blocks (super-block, bitmap, File nodes, indirect blocks) is read from and written to these
-- words.
use demo2s.Base.{ℕ, ◌+◌, ◌/◌, ◌%◌, Bool, true, update}

abbrev pub Ptr : Type 0
Ptr = ℕ × ℕ

-- `mapped` and `dirty` are the page table's PTE_P and PTE_D for the block's page. `grants`
-- is what the kernel will answer: whether the n-th `sys_mem_alloc` gets a page; `asked` counts the
-- calls. `has_super` and `has_bitmap` say whether the pointers
-- `super` and `bitmap` are set; they point at block 1 and block 2.
pub record Server : Type 0 where
  pub disk : ℕ → ℕ → ℕ
  pub mem : ℕ → ℕ → ℕ
  pub mapped : ℕ → Bool
  pub dirty : ℕ → Bool
  pub grants : ℕ → Bool
  pub asked : ℕ
  pub has_super : Bool
  pub has_bitmap : Bool

-- A load, and a store, which makes the page dirty.
abbrev pub peek : Server → Ptr → ℕ
peek s (b, i) = s.mem b i

abbrev pub poke : Ptr → ℕ → Server → Server
poke (b, i) w s = record s {
  mem = update s.mem b (update (s.mem b) i w);
  dirty = update s.dirty b true;
}

abbrev pub by2blk : ℕ
by2blk = 4096

-- `super->s_magic` and `super->s_nblocks`
abbrev pub s_magic : Server → ℕ
s_magic s = peek s (1, 0)

abbrev pub s_nblocks : Server → ℕ
s_nblocks s = peek s (1, 1)

abbrev pub fs_magic : ℕ
fs_magic = 0x68286097

-- `bitmap[w]`: the bitmap starts in block 2 and goes on in the next ones.
abbrev pub bitmap_ptr : ℕ → Ptr
bitmap_ptr w = (2 + w / 1024, w % 1024)
