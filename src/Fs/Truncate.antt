-- ===== src/Fs/Truncate.antt =====
-- `file_truncate` and `file_flush` on files with missing blocks.
use demo2s.Base.{
  ℕ, zero, suc, ◌+◌, ◌-◌, ◌≤◌, ◌<◌, ◌≡◌, refl, done, panic, arith, ok, err, Ret, inval, not_found,
  ltb, Bool-cases, inl, inr,
}
use demo2s.Fs.State.{Ptr, Server, peek, poke}
use demo2s.Fs.Blocks.{free_block}
use demo2s.Fs.File.{
  f_size, f_direct, f_indirect, file_clear_block, clear_from, file_truncate, blocks_of,
}

-- No block of the file is there: it has a size only.
pub record IsHole (s : Server) (f : Ptr) : Type 0 where
  pub direct : (n : ℕ) → n < 10 → peek s (f_direct n f) ≡ 0
  pub indirect : peek s (f_indirect f) ≡ 0

-- Clearing a block of it does nothing.
clear_hole :
    (s : Server) (f : Ptr) (n : ℕ)
    → IsHole s f
    → (r : Ret (Unit {0})) × (file_clear_block f n s ≡ done r s)
unfolding file_clear_block
clear_hole s f n h = elim (Bool-cases (ltb n 10)) [
  | inl e ↦ (ok tt, ground (arith, h.direct n))
  | inr e ↦ elim (Bool-cases (ltb n 1024)) [
    | inl i ↦ (err not_found, ground (arith, h.indirect))
    | inr i ↦ (err inval, ground arith)
  ]
]

clear_from_hole :
    (left n : ℕ) (s : Server) (f : Ptr) → IsHole s f → clear_from f left n s ≡ done tt s
unfolding clear_from
clear_from_hole zero n s f h = refl
clear_from_hole (suc left) n s f h =
    rw ((clear_hole s f n h).1) (clear_from_hole left (n + 1) s f h)

-- A file that has been given a size of more than ten blocks and never a block stops the server when it
-- is cut to ten blocks or fewer: `free_block` is called for the indirect block, which is 0.
pub file_truncate_hole :
    (s : Server) (f : Ptr) (newsize : ℕ)
    → IsHole s f
    → 10 < blocks_of (peek s (f_size f))
    → blocks_of newsize ≤ 10
    → file_truncate f newsize s ≡ panic
unfolding file_truncate free_block
file_truncate_hole s f newsize h old new =
    let s' : Server = poke (f_size f) newsize s in
    let h' : IsHole s' f = record {
      direct = λ n lt. ground (arith, h.direct n);
      indirect = ground (arith, h.indirect);
    } in
    rw
      (clear_from_hole (blocks_of (peek s (f_size f)) - blocks_of newsize) (blocks_of newsize) s' f
        h')
      (ground (arith, h'.indirect))
