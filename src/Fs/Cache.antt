-- ===== src/Fs/Cache.antt =====
-- The block cache: what the server sees of a block, in memory or on the disk.
use demo2s.Base.{
  ℕ, ◌+◌, ◌≡◌, refl, ◌∙◌, Bool, true, false, ◌&&◌, ◌||◌, done, arith, ok, err, no_mem, update,
  panic, ◌==◌, if◌then◌else◌, Bool-cases, inl, inr, Ret,
}
use demo2s.Fs.State.{Server}
use demo2s.Fs.Blocks.{beyond, bit, ide_read, read_block, write_block, sys_mem_alloc}

-- Word i of block b: in memory where the block is mapped, else on the disk.
abbrev pub view : Server → ℕ → ℕ → ℕ
view s b i = if s.mapped b then s.mem b i else s.disk b i

-- A block in memory that is not dirty is as on the disk.
pub record IsCoherent (s : Server) : Type 0 where
  pub clean : (b i : ℕ) → s.mapped b ≡ true → s.dirty b ≡ false → s.mem b i ≡ s.disk b i

-- `read_block` does not panic on this block: it is on the disk and not marked free.
abbrev pub IsReadable : Server → ℕ → Type 0
IsReadable s b = (beyond s b ≡ false) × ((s.has_super && s.has_bitmap && bit s b) ≡ false)

-- The states after a block is loaded, and after it is written.
abbrev pub loaded : ℕ → Server → Server
loaded b s = ide_read b (record s {
  mem = update s.mem b (λ _. 0);
  mapped = update s.mapped b true;
  dirty = update s.dirty b false;
  asked = s.asked + 1;
})

abbrev pub written : ℕ → Server → Server
written b s = record s { disk = update s.disk b (s.mem b); dirty = update s.dirty b false }

abbrev refused : Server → Server
refused s = record s { asked = s.asked + 1 }

read_block_value :
    (s : Server) (b : ℕ)
    → IsReadable s b
    → read_block b s ≡ (
        if s.mapped b
        then done (ok (b, false)) s
        else if s.grants s.asked
        then done (ok (b, true)) (loaded b s)
        else done (err no_mem) (refused s))
unfolding read_block sys_mem_alloc
read_block_value s b r = ground (arith, r)

pub write_block_value :
    (s : Server) (b : ℕ)
    → beyond s b ≡ false
    → write_block b s
      ≡ (if s.mapped b then (if s.dirty b then done tt (written b s) else done tt s) else panic)
unfolding write_block
write_block_value s b r = ground arith

loaded-IsCoherent : (s : Server) (b : ℕ) → IsCoherent s → IsCoherent (loaded b s)
loaded-IsCoherent s b h = record { clean = λ c i m d. ground (arith, h.clean c i) }

pub written-IsCoherent : (s : Server) (b : ℕ) → IsCoherent s → IsCoherent (written b s)
written-IsCoherent s b h = record { clean = λ c i m d. ground (arith, h.clean c i) }

-- The cache is transparent to `read_block`: on a block that is in use it never panics, it changes no
-- word of any block as the server sees it and nothing on the disk, and keeps the cache coherent. It
-- fails exactly when the block is not in memory and no page is granted, and else leaves it in memory
-- and says whether it was loaded.
pub read_block_lem :
    (s : Server) (b c i : ℕ)
    → IsReadable s b
    → IsCoherent s
    → (r : Ret (ℕ × Bool)) × (s' : Server) × (read_block b s ≡ done r s')
      × (r ≡ (
          if s.mapped b
          then ok (b, false)
          else if s.grants s.asked
          then ok (b, true)
          else err no_mem))
      × IsCoherent s'
      × (s'.mapped b ≡ (s.mapped b || s.grants s.asked))
      × (view s' c i ≡ view s c i)
      × (s'.disk c i ≡ s.disk c i)
read_block_lem s b c i r h = elim (Bool-cases (s.mapped b)) [
  | inl m ↦
      (ok (b, false), s, read_block_value s b r ∙ rw m refl, rw m refl, h, rw m refl, refl, refl)
  | inr n ↦ elim (Bool-cases (s.grants s.asked)) [
    | inl g ↦ (
      ok (b, true),
      loaded b s,
      read_block_value s b r ∙ rw (n, g) refl,
      rw (n, g) refl,
      loaded-IsCoherent s b h,
      ground arith,
      ground arith,
      refl,
    )
    | inr g ↦ (
      err no_mem,
      refused s,
      read_block_value s b r ∙ rw (n, g) refl,
      rw (n, g) refl,
      record { clean = h.clean },
      ground arith,
      refl,
      refl,
    )
  ]
]

-- `write_block` of a block in memory makes the disk agree with what the server sees of this block,
-- changes no other block on the disk and nothing that the server sees, and keeps the cache coherent.
pub write_block_lem :
    (s : Server) (b c i : ℕ)
    → beyond s b ≡ false
    → s.mapped b ≡ true
    → IsCoherent s
    → (s' : Server) × (write_block b s ≡ done tt s')
      × IsCoherent s'
      × (s'.dirty b ≡ false)
      × (view s' c i ≡ view s c i)
      × (s'.disk c i ≡ (if c == b then view s b i else s.disk c i))
write_block_lem s b c i r m h = elim (Bool-cases (s.dirty b)) [
  | inl d ↦ (
    written b s,
    write_block_value s b r ∙ rw (m, d) refl,
    written-IsCoherent s b h,
    ground arith,
    ground arith,
    ground arith,
  )
  | inr d ↦ (s, write_block_value s b r ∙ rw (m, d) refl, h, d, refl, ground (arith, h.clean b i))
]
