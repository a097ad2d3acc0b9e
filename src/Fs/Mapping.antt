-- ===== src/Fs/Mapping.antt =====
-- `alloc_block`, and the blocks that `file_map_block` gives a file.
use demo2s.Base.{
  ℕ, ◌≤◌, ◌<◌, ◌≡◌, ◌≢◌, refl, sym, ◌∙◌, Bool, true, false, done, panic, leave, Run, Ret, arith, ok,
  err, ◌==◌, Bool-cases, inl, inr, not_found,
}
use demo2s.Fs.State.{Ptr, Server, peek, poke}
use demo2s.Fs.Blocks.{bit, alloc_block, alloc_block_num, map_block}
use demo2s.Fs.Bitmap.{allocated}
use demo2s.Fs.File.{f_direct, file_map_block}

-- What follows `alloc_block_num` in `alloc_block` does not change the number.
number_kept :
    (s s1 s' : Server) (j b : ℕ) (r : Run Server (Ret (Unit {0})))
    → alloc_block_num s ≡ done (ok j) s1
    → map_block j s1 ≡ r
    → alloc_block s ≡ done (ok b) s'
    → j ≡ b
unfolding alloc_block
number_kept s s1 s' j b (done (ok u) s2) e m run = ground (arith, e, m, run)
number_kept s s1 s' j b (done (err x) s2) e m run = ground (arith, e, m, run)
number_kept s s1 s' j b (leave s2) e m run = ground (arith, e, m, run)
number_kept s s1 s' j b panic e m run = ground (arith, e, m, run)

alloc_tail :
    (s s' : Server) (r : Run Server (Ret ℕ)) (b : ℕ)
    → alloc_block_num s ≡ r
    → alloc_block s ≡ done (ok b) s'
    → (s1 : Server) × (alloc_block_num s ≡ done (ok b) s1)
unfolding alloc_block
alloc_tail s s' (done (ok j) s1) b e run =
    (s1, rw⁻¹ (number_kept s s1 s' j b (map_block j s1) e refl run) e)
alloc_tail s s' (done (err x) s1) b e run = absurd (ground (arith, e))
alloc_tail s s' (leave s1) b e run = absurd (ground (arith, e))
alloc_tail s s' panic b e run = absurd (ground (arith, e))

-- `alloc_block` gives a block from 2 on that was free before: never the null block 0, the
-- super-block, or a block in use.
pub alloc_block_lem :
    (s s' : Server) (b : ℕ)
    → s.has_super ≡ true
    → s.has_bitmap ≡ true
    → alloc_block s ≡ done (ok b) s'
    → (2 ≤ b) × (bit s b ≡ true)
alloc_block_lem s s' b sup bm run =
    let t = alloc_tail s s' (alloc_block_num s) b refl run in
    let a = allocated s t.0 b sup bm t.1 in (a.1, a.2)

map_present :
    (f : Ptr) (n : ℕ) (alloc : Bool) (s : Server)
    → n < 10
    → peek s (f_direct n f) ≢ 0
    → file_map_block f n alloc s ≡ done (ok (peek s (f_direct n f))) s
unfolding file_map_block
map_present f n alloc s lt there = ground arith

map_absent :
    (f : Ptr) (n : ℕ) (s : Server)
    → n < 10
    → peek s (f_direct n f) ≡ 0
    → file_map_block f n false s ≡ done (err not_found) s
unfolding file_map_block
map_absent f n s lt none_there = ground arith

map_allocated :
    (f : Ptr) (n b : ℕ) (s s' : Server) (r : Run Server (Ret ℕ))
    → n < 10
    → peek s (f_direct n f) ≡ 0
    → alloc_block s ≡ r
    → file_map_block f n true s ≡ done (ok b) s'
    → (s1 : Server) × (alloc_block s ≡ done (ok b) s1) × (s' ≡ poke (f_direct n f) b s1)
unfolding file_map_block
map_allocated f n b s s' (done (ok j) s1) lt z a run =
    let step : file_map_block f n true s ≡ done (ok j) (poke (f_direct n f) j s1) =
      ground (arith, a) in
    let both : done (ok b) s' ≡ done (ok j) (poke (f_direct n f) j s1) = sym run ∙ step in
    let eq : b ≡ j = cc in
    let eq_state : s' ≡ poke (f_direct n f) j s1 = cc in (s1, rw eq a, rw eq eq_state)
map_allocated f n b s s' (done (err x) s1) lt z a run = absurd (ground (arith, a))
map_allocated f n b s s' (leave s1) lt z a run = absurd (ground (arith, a))
map_allocated f n b s s' panic lt z a run = absurd (ground (arith, a))

-- The direct block that `file_map_block` gave a file, allocated or not, is not 0, and is what it gives
-- again without allocation, with no further effect.
pub file_map_block_again :
    (f : Ptr) (n b : ℕ) (alloc : Bool) (s s' : Server)
    → s.has_super ≡ true
    → s.has_bitmap ≡ true
    → n < 10
    → file_map_block f n alloc s ≡ done (ok b) s'
    → (b ≢ 0) × (file_map_block f n false s' ≡ done (ok b) s')
file_map_block_again f n b alloc s s' sup bm lt run =
    elim (Bool-cases (peek s (f_direct n f) == 0)) [
      | inr there ↦
          let step = map_present f n alloc s lt (ground arith) in
          let both : done (ok b) s' ≡ done (ok (peek s (f_direct n f))) s = sym run ∙ step in
          let eq : b ≡ peek s (f_direct n f) = cc in
          let eq_state : s' ≡ s = cc in
          (rw eq (ground arith), rw (eq, eq_state) (map_present f n false s lt (ground arith)))
      | inl z ↦ fresh alloc (ground arith) run
    ]
  where
    fresh :
        (a : Bool)
        → peek s (f_direct n f) ≡ 0
        → file_map_block f n a s ≡ done (ok b) s'
        → (b ≢ 0) × (file_map_block f n false s' ≡ done (ok b) s')
    fresh false z h = absurd (ground (arith, sym h ∙ map_absent f n s lt z))
    fresh true z h =
        let m = map_allocated f n b s s' (alloc_block s) lt z refl h in
        let a = alloc_block_lem s m.0 b sup bm m.1 in
        let read : peek (poke (f_direct n f) b m.0) (f_direct n f) ≡ b = ground arith in
        (
          ground (arith, a),
          rw (m.2) (
              map_present f n false (poke (f_direct n f) b m.0) lt (ground (arith, a))
              ∙ rw read refl),
        )
