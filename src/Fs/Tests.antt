-- ===== src/Fs/Tests.antt =====
-- The properties of the file server at a concrete state.
pub mod Requests
use demo2s.Base.{
  none, ℕ, ◌≤◌, ◌<◌, ◌≡◌, ◌⊎◌, refl, Bool, true, false, not, ◌&&◌, ◌||◌, arith, ◌==◌, if◌then◌else◌,
  done, ok, err, no_disk, no_mem, [], ◌∷◌, Ret, ◌≢◌,
}
use demo2s.Base.TestBit.{testbit}
use demo2s.Fs.State.{Server}
use demo2s.Fs.Blocks.{bit, alloc_block_num, read_block, write_block}
use demo2s.Fs.Bitmap.{alloc_block_num_lem}
use demo2s.Fs.Cache.{view, IsCoherent, read_block_lem, write_block_lem}
use demo2s.Fs.Sync.{fs_sync, fs_sync_lem}
use demo2s.Fs.Dir.{walk_path, same_name, copy_name}
use demo2s.Fs.Path.{AreNames, elements, walk_names}
use demo2s.Fs.Path.Lookup.{walk_path_lem}
use demo2s.Fs.Name.{same_name-copy_name}

-- A disk of 64 blocks, of which 5 to 63 are free. Block 3 holds two file nodes; the one at word 0 has a
-- size of 11 blocks and no block.
abbrev pub disk0 : ℕ → ℕ → ℕ
disk0 b i =
    if b == 1 && i == 0
    then 0x68286097
    else if b == 1 && i == 1
    then 64
    else if b == 2 && i == 0
    then 0xffffffe0
    else if b == 2 && i == 1
    then 0xffffffff
    else if b == 3 && i == 32
    then 45056
    else 0

-- Blocks 1 to 3 are in memory, and block 3 was changed there.
abbrev pub server0 : Server
server0 = record {
  disk = disk0;
  mem = λ b i. if b == 3 && i == 64 then 97 else disk0 b i;
  mapped = λ b. b == 1 || b == 2 || b == 3;
  dirty = λ b. b == 3;
  grants = λ n. n == 0;
  asked = 0;
  has_super = true;
  has_bitmap = true;
}

server0-IsCoherent : IsCoherent server0
server0-IsCoherent = record { clean = λ b i m d. ground arith }

alloc_block_num_example :
    ((alloc_block_num server0 ≡ done (err no_disk) server0) × (bit server0 6 ≡ false))
    ⊎ ((b : ℕ) × (s' : Server) × (alloc_block_num server0 ≡ done (ok b) s')
        × (2 ≤ b)
        × (b < 64)
        × (bit server0 b ≡ true)
        × ((b ≤ 6) ⊎ (bit server0 6 ≡ false))
        × (bit s' 6 ≡ (not (6 == b) && bit server0 6)))
alloc_block_num_example = alloc_block_num_lem server0 6 refl refl (omega arith) (omega arith)

in_use_4 : (server0.has_super && server0.has_bitmap && bit server0 4) ≡ false
unfolding testbit
in_use_4 = refl

read_block_example :
    (r : Ret (ℕ × Bool)) × (s' : Server) × (read_block 4 server0 ≡ done r s')
    × (r ≡ (
        if server0.mapped 4
        then ok (4, false)
        else if server0.grants 0
        then ok (4, true)
        else err no_mem))
    × IsCoherent s'
    × (s'.mapped 4 ≡ (server0.mapped 4 || server0.grants 0))
    × (view s' 3 64 ≡ view server0 3 64)
    × (s'.disk 3 64 ≡ disk0 3 64)
read_block_example = read_block_lem server0 4 3 64 (refl, in_use_4) server0-IsCoherent

write_block_example :
    (s' : Server) × (write_block 3 server0 ≡ done tt s')
    × IsCoherent s'
    × (s'.dirty 3 ≡ false)
    × (view s' 3 64 ≡ view server0 3 64)
    × (s'.disk 3 64 ≡ (if 3 == 3 then view server0 3 64 else disk0 3 64))
write_block_example = write_block_lem server0 3 3 64 refl refl server0-IsCoherent

fs_sync_example :
    (s' : Server) × (fs_sync server0 ≡ done tt s')
    × ((s'.mapped 3 && s'.dirty 3) ≡ false)
    × (view s' 3 64 ≡ view server0 3 64)
    × (s'.disk 3 64 ≡ view server0 3 64)
fs_sync_example = fs_sync_lem server0 3 64 refl server0-IsCoherent (omega arith)

-- "//ab//c/"
walk_path_lem_example :
    (walk_path (47 ∷ 47 ∷ 97 ∷ 98 ∷ 47 ∷ 47 ∷ 99 ∷ 47 ∷ []) server0
      ≡ walk_names none (1, 2) ((97 ∷ 98 ∷ []) ∷ (99 ∷ []) ∷ []) server0)
    × AreNames ((97 ∷ 98 ∷ []) ∷ (99 ∷ []) ∷ [])
unfolding elements
walk_path_lem_example = walk_path_lem (47 ∷ 47 ∷ 97 ∷ 98 ∷ 47 ∷ 47 ∷ 99 ∷ 47 ∷ []) server0 refl

same_name-copy_name_example :
    same_name
      (copy_name (3, 64) 0 (97 ∷ 98 ∷ 99 ∷ 100 ∷ 101 ∷ []) server0)
      (3, 64)
      0
      (97 ∷ 98 ∷ 99 ∷ 100 ∷ 101 ∷ [])
    ≡ true
same_name-copy_name_example =
    same_name-copy_name (97 ∷ 98 ∷ 99 ∷ 100 ∷ 101 ∷ []) server0 (3, 64) (ground arith)
