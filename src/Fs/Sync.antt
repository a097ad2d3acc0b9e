-- ===== src/Fs/Sync.antt =====
-- fs/fs.c, `fs_sync`, and that it brings the disk up to date.
use demo2s.Base.{
  ℕ, zero, suc, ◌+◌, ◌≤◌, ◌<◌, ◌≡◌, refl, ◌∙◌, true, false, not, ◌&&◌, done, panic, M, arith, pure,
  ◌>>=◌, ◌>>◌, ◌==◌, leb, ltb, if◌then◌else◌,
}
use demo2s.Fs.State.{Server, s_nblocks}
use demo2s.Fs.Blocks.{beyond, block_is_dirty, write_block}
use demo2s.Fs.Cache.{view, IsCoherent, written, write_block_value}

-- The loop, on `left` blocks from i on.
unfoldable pub sync_from : ℕ → ℕ → M Server (Unit {0})
sync_from zero i = pure tt
sync_from (suc left) i = do
  d ← block_is_dirty i
  (λ s. if d then write_block i s else done tt s)
  sync_from left (i + 1)

unfoldable pub fs_sync : M Server (Unit {0})
unfolding sync_from
fs_sync s = if s.has_super then sync_from (s_nblocks s) 0 s else panic

-- The state that the loop leaves.
abbrev flushed_one : ℕ → Server → Server
flushed_one i s = if s.mapped i && s.dirty i then written i s else s

flushed : ℕ → ℕ → Server → Server
flushed zero i s = s
flushed (suc left) i s = flushed left (i + 1) (flushed_one i s)

block_is_dirty_value :
    (s : Server) (b : ℕ)
    → beyond s b ≡ false
    → block_is_dirty b s ≡ done (s.mapped b && s.dirty b) s
unfolding block_is_dirty
block_is_dirty_value s b r = ground arith

-- One step of the loop changes neither memory nor what is mapped, and at most one block of the disk.
flushed_one_lem :
    (s : Server) (i b x : ℕ)
    → ((flushed_one i s).mem 1 1 ≡ s.mem 1 1)
      × ((flushed_one i s).mapped b ≡ s.mapped b)
      × ((flushed_one i s).mem b x ≡ s.mem b x)
      × ((flushed_one i s).has_super ≡ s.has_super)
      × ((flushed_one i s).dirty b ≡ (not (b == i && s.mapped b) && s.dirty b))
      × ((flushed_one i s).disk b x
          ≡ (if b == i && s.mapped b && s.dirty b then s.mem b x else s.disk b x))
flushed_one_lem s i b x =
    (ground arith, ground arith, ground arith, ground arith, ground arith, ground arith)

step_value :
    (s : Server) (i : ℕ)
    → beyond s i ≡ false
    → (if s.mapped i && s.dirty i then write_block i s else done tt s) ≡ done tt (flushed_one i s)
step_value s i r = ground (arith, write_block_value s i r)

sync_from-flushed :
    (left i : ℕ) (s : Server)
    → i + left ≤ s_nblocks s
    → sync_from left i s ≡ done tt (flushed left i s)
unfolding sync_from flushed
sync_from-flushed zero i s h = refl
sync_from-flushed (suc left) i s h =
    rw (block_is_dirty_value s i (ground arith), step_value s i (ground arith))
      (sync_from-flushed left (i + 1) (flushed_one i s) (omega (arith, flushed_one_lem s i 0 0)))

flushed_lem :
    (left i b x : ℕ) (s : Server)
    → ((flushed left i s).mapped b ≡ s.mapped b)
      × ((flushed left i s).mem b x ≡ s.mem b x)
      × ((flushed left i s).dirty b
          ≡ (not (leb i b && ltb b (i + left) && s.mapped b) && s.dirty b))
      × ((flushed left i s).disk b x ≡ (
          if leb i b && ltb b (i + left) && s.mapped b && s.dirty b then s.mem b x else s.disk b x))
unfolding flushed
flushed_lem zero i b x s = (refl, refl, ground arith, ground arith)
flushed_lem (suc left) i b x s =
    let rest = flushed_lem left (i + 1) b x (flushed_one i s) in
    let one = flushed_one_lem s i b x in
    (
      rest.0 ∙ one.1,
      rest.1 ∙ one.2,
      rest.2 ∙ ground (arith, one.1, one.4),
      rest.3 ∙ ground (arith, one.1, one.2, one.4, one.5),
    )

-- `fs_sync` never panics. After it no block of the disk that is in memory is dirty, and the disk holds
-- every block as the server sees it, which is as before.
pub fs_sync_lem :
    (s : Server) (b x : ℕ)
    → s.has_super ≡ true
    → IsCoherent s
    → b < s_nblocks s
    → (s' : Server) × (fs_sync s ≡ done tt s')
      × ((s'.mapped b && s'.dirty b) ≡ false)
      × (view s' b x ≡ view s b x)
      × (s'.disk b x ≡ view s b x)
unfolding fs_sync
fs_sync_lem s b x sup h lt =
    let f = flushed_lem (s_nblocks s) 0 b x s in
    (
      flushed (s_nblocks s) 0 s,
      ground (arith, sync_from-flushed (s_nblocks s) 0 s),
      ground (arith, f.0, f.2),
      ground (arith, f.0, f.1, f.3, h.clean b x),
      ground (arith, f.3, h.clean b x),
    )
