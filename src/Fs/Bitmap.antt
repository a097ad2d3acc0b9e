-- ===== src/Fs/Bitmap.antt =====
-- The block bitmap as a set of free blocks: `free_block`, `alloc_block_num` and `alloc_block`.
use demo2s.Base.{
  ℕ, zero, suc, ◌+◌, ◌-◌, ◌/◌, ◌%◌, ◌^◌, ◌≤◌, ◌<◌, ◌≡◌, ◌≢◌, ◌⊎◌, refl, sym, ◌∙◌, true, false, not,
  ◌&&◌, ◌||◌, done, arith, ok, err, no_disk, ◌==◌, if◌then◌else◌, Bool-cases, inl, inr, bit_and,
  bit_or,
}
use demo2s.Base.TestBit.{testbit-bit_or, testbit-bit_and, testbit-pow, testbit-mask}
use demo2s.Fs.State.{Server, peek, poke, s_nblocks, bitmap_ptr}
use demo2s.Fs.Blocks.{
  bit, set_bit, clear_bit, block_is_free, free_block, alloc_from, alloc_block_num,
}

-- A store to one word of the bitmap, read back at the word of any block.
word_after :
    (s : Server) (w w' v : ℕ)
    → peek (poke (bitmap_ptr w) v s) (bitmap_ptr w')
      ≡ (if w == w' then v else peek s (bitmap_ptr w'))
word_after s w w' v = ground arith

-- The bits after one of them is set or cleared.
pub bit-set_bit : (s : Server) (b i : ℕ) → bit (set_bit b s) i ≡ (i == b || bit s i)
bit-set_bit s b i =
    rw (word_after s (b / 32) (i / 32) (bit_or (peek s (bitmap_ptr (b / 32))) (2 ^ (b % 32))))
      (elim (Bool-cases (b / 32 == i / 32)) [
        | inl e ↦ rw e (
            testbit-bit_or (i % 32) (peek s (bitmap_ptr (b / 32))) (2 ^ (b % 32))
            ∙ ground (arith, testbit-pow (b % 32) (i % 32)))
        | inr e ↦ rw e (ground arith)
      ])

pub bit-clear_bit : (s : Server) (b i : ℕ) → bit (clear_bit b s) i ≡ (not (i == b) && bit s i)
bit-clear_bit s b i =
    rw
      (word_after s (b / 32) (i / 32)
        (bit_and (peek s (bitmap_ptr (b / 32))) (2 ^ 32 - 1 - 2 ^ (b % 32))))
      (elim (Bool-cases (b / 32 == i / 32)) [
        | inl e ↦ rw e (
            testbit-bit_and (i % 32) (peek s (bitmap_ptr (b / 32))) (2 ^ 32 - 1 - 2 ^ (b % 32))
            ∙ ground (arith, testbit-mask (b % 32) (i % 32)))
        | inr e ↦ rw e (ground arith)
      ])

-- `free_block` of a block other than 0 makes this block free and changes no other block's state,
-- as `block_is_free` reads it.
pub free_block_lem :
    (s : Server) (b i : ℕ)
    → b ≢ 0
    → s.has_super ≡ true
    → s.has_bitmap ≡ true
    → i < s_nblocks s
    → (s' : Server) × (free_block b s ≡ done tt s')
      × (block_is_free i s' ≡ done (i == b || bit s i) s')
      × (block_is_free i s ≡ done (bit s i) s)
unfolding free_block block_is_free
free_block_lem s b i ne sup bm lt = (
  set_bit b s,
  ground arith,
  rw (sup, bm, bit-set_bit s b i) (ground arith),
  rw (sup, bm) (ground arith),
)

-- What a scan of `left` blocks from b on answers, as seen from block i.
abbrev Scanned : Server → ℕ → ℕ → ℕ → Type 0
Scanned s left b i =
    ((alloc_from left b s ≡ done (err no_disk) s) × ((i < b) ⊎ (b + left ≤ i) ⊎ (bit s i ≡ false)))
    ⊎ ((j : ℕ) × (alloc_from left b s ≡ done (ok j) (clear_bit j s))
        × (b ≤ j)
        × (j < b + left)
        × (bit s j ≡ true)
        × ((i < b) ⊎ (j ≤ i) ⊎ (bit s i ≡ false)))

scan_step :
    (s : Server) (left b : ℕ)
    → s.has_bitmap ≡ true
    → alloc_from (suc left) b s
      ≡ (if bit s b then done (ok b) (clear_bit b s) else alloc_from left (b + 1) s)
unfolding alloc_from
scan_step s left b bm = ground arith

later :
    (s : Server) (left b i : ℕ)
    → s.has_bitmap ≡ true
    → bit s b ≡ false
    → Scanned s left (b + 1) i
    → Scanned s (suc left) b i
later s left b i bm used (inl x) = inl (scan_step s left b bm ∙ rw used x.0, ground arith)
later s left b i bm used (inr (j, run, from, to, free, first)) =
    inr (j, scan_step s left b bm ∙ rw used run, omega arith, omega arith, free, ground arith)

scan : (s : Server) (left b i : ℕ) → s.has_bitmap ≡ true → Scanned s left b i
unfolding alloc_from
scan s zero b i bm = inl (refl, ground arith)
scan s (suc left) b i bm = elim (Bool-cases (bit s b)) [
  | inl e ↦ inr (b, scan_step s left b bm ∙ rw e refl, ground arith, ground arith, e, ground arith)
  | inr e ↦ later s left b i bm e (scan s left (b + 1) i bm)
]

pub scan_start :
    (s : Server) → s.has_super ≡ true → alloc_block_num s ≡ alloc_from (s_nblocks s - 2) 2 s
unfolding alloc_block_num
scan_start s sup = ground arith

-- `alloc_block_num` fails without effect only if no block from 2 on is free. Else it returns a block
-- from 2 on that was free, the lowest such one, and takes it out of the free blocks and no other.
pub alloc_block_num_lem :
    (s : Server) (i : ℕ)
    → s.has_super ≡ true
    → s.has_bitmap ≡ true
    → 2 ≤ i
    → i < s_nblocks s
    → ((alloc_block_num s ≡ done (err no_disk) s) × (bit s i ≡ false))
      ⊎ ((b : ℕ) × (s' : Server) × (alloc_block_num s ≡ done (ok b) s')
          × (2 ≤ b)
          × (b < s_nblocks s)
          × (bit s b ≡ true)
          × ((b ≤ i) ⊎ (bit s i ≡ false))
          × (bit s' i ≡ (not (i == b) && bit s i)))
alloc_block_num_lem s i sup bm low lt = elim (scan s (s_nblocks s - 2) 2 i bm) [
  | inl x ↦ inl (scan_start s sup ∙ x.0, ground (arith, x.1))
  | inr (b, run, from, to, free, first) ↦ inr (
    b,
    clear_bit b s,
    scan_start s sup ∙ run,
    from,
    omega arith,
    free,
    ground arith,
    bit-clear_bit s b i,
  )
]

pub allocated :
    (s s' : Server) (b : ℕ)
    → s.has_super ≡ true
    → s.has_bitmap ≡ true
    → alloc_block_num s ≡ done (ok b) s'
    → (s' ≡ clear_bit b s) × (2 ≤ b) × (bit s b ≡ true)
allocated s s' b sup bm run = elim (scan s (s_nblocks s - 2) 2 0 bm) [
  | inl x ↦ absurd (ground (arith, sym run ∙ scan_start s sup ∙ x.0))
  | inr (j, r, from, to, free, first) ↦
      let same : done (ok b) s' ≡ done (ok j) (clear_bit j s) = sym run ∙ scan_start s sup ∙ r in
      let eq : b ≡ j = cc in
      let eq_state : s' ≡ clear_bit j s = cc in (rw eq eq_state, rw eq from, rw eq free)
]

-- `free_block` gives back what `alloc_block_num` took: every block is then free or in use as before.
pub free_block-alloc_block_num :
    (s s' : Server) (b i : ℕ)
    → s.has_super ≡ true
    → s.has_bitmap ≡ true
    → alloc_block_num s ≡ done (ok b) s'
    → (s'' : Server) × (free_block b s' ≡ done tt s'') × (bit s'' i ≡ bit s i)
unfolding free_block
free_block-alloc_block_num s s' b i sup bm run =
    let a = allocated s s' b sup bm run in
    (
      set_bit b s',
      rw (a.0) (ground (arith, a.1)),
      bit-set_bit s' b i ∙ rw (a.0) (rw (bit-clear_bit s b i) (ground (arith, a.2))),
    )
