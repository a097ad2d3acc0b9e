-- ===== src/User/File/Writes.antt =====
-- `file_write` of user/file.c, and what is read after it.
use demo2s.Base.{
  ℕ, ◌+◌, ◌-◌, ◌*◌, ◌/◌, ◌^◌, ◌≤◌, ◌<◌, ◌≡◌, ◌⊎◌, inl, inr, refl, ap, ◌∙◌, true, false, Bool-cases,
  ltb, ltb_of_le, if◌then◌else◌, if_true, if_false, u32, Run, Ret, ok, err, try, on_ok, and_then,
  no_disk, done, arith,
}
use demo2s.Kern.Mmu.{by2pg}
use demo2s.User.Str.{bcopy}
use demo2s.User.Str.Laws.{bcopy_lem}
use demo2s.Fs.Serve.{devfile_id}
use demo2s.User.File.{
  read_size, file_read, maxfilesize, round_up, Client, ftruncate, copied, file_write,
}
use demo2s.User.File.Grow.{granted, ftruncate_grows}

-- What a read of n bytes at an offset inside the file gives
abbrev pub up_to_end : ℕ → ℕ → ℕ → ℕ
up_to_end size n offset = if ltb size (offset + n) then size - offset else n

size_read :
    (size n offset : ℕ)
    → offset ≤ size
    → offset + n < 2 ^ 32
    → read_size size n offset ≡ up_to_end size n offset
unfolding read_size
size_read size n offset le lt = ground (arith, le, lt)

fewer : (size n offset : ℕ) → up_to_end size n offset ≤ n
fewer size n offset = ground arith

-- What the write leaves: the bytes in the file's pages, the descriptor's size as it was, and the server's size
-- and the pages for the larger file.
pub record Written (file buf n offset : ℕ) (s s' : Client) : Type 0 where
  pub bytes : (i : ℕ) → i < n → s'.mem (file + offset + i) ≡ s.mem (buf + i)
  pub same_size : s'.f_size ≡ s.f_size
  pub server : s'.o_size ≡ (if ltb s.f_size (offset + n) then offset + n else s.o_size)
  pub there :
      (j : ℕ)
      → round_up s.f_size ≤ by2pg * j
      → by2pg * j < offset + n
      → s'.mapped (by2pg * j) ≡ true

module _ (content : ℕ → ℕ) (file buf n offset : ℕ) (s : Client) (inside : offset ≤ s.f_size)
    (usual : s.f_size ≤ maxfilesize) (fits : offset + n ≤ maxfilesize)
    (apart : (buf + n ≤ file) ⊎ (file + maxfilesize ≤ buf)) where
  not_too_large : ltb maxfilesize (u32 (offset + n)) ≡ false
  not_too_large = ltb_of_le maxfilesize (u32 (offset + n)) (omega (arith, fits))

  sum_small : u32 (offset + n) ≡ offset + n
  sum_small = omega (arith, fits)

  -- Copying at an offset of the file changes only its pages.
  copied_bytes :
      (m : ℕ → ℕ)
      → ((a : ℕ) → (a < file) ⊎ (file + maxfilesize ≤ a) → m a ≡ s.mem a)
      → (i : ℕ) → i < n
      → bcopy n m buf (file + offset) (file + offset + i) ≡ s.mem (buf + i)
  copied_bytes m same i lt =
      bcopy_lem n buf (file + offset) i m (omega (arith, apart, fits)) lt
      ∙ same (buf + i) (omega (arith, apart, lt))

  IsWritten : Type 0
  IsWritten =
      (s' : Client) × (file_write granted content file (ok devfile_id) buf n offset s
        ≡ done (ok n) s')
      × Written file buf n offset s s'

  write_inside : ltb s.f_size (offset + n) ≡ false → IsWritten
  unfolding file_write IsWritten
  write_inside small = (
    record s { mem = bcopy n s.mem buf (file + offset) },
    rw (file_write, not_too_large, sum_small, small) refl,
    record {
      bytes = copied_bytes s.mem (λ a out. refl);
      same_size = refl;
      server = rw small refl;
      there = λ j le lt. absurd (ground (arith, small, usual, le, lt));
    },
  )

  enlarged_run :
      (s1 : Client)
      → ltb s.f_size (offset + n) ≡ true
      → ftruncate granted content file (ok devfile_id) (offset + n) s ≡ done (ok tt) s1
      → file_write granted content file (ok devfile_id) buf n offset s
        ≡ copied (file + offset) buf n s1
  unfolding file_write
  enlarged_run s1 large run =
      let large' : ltb s.f_size (u32 (offset + n)) ≡ true = ap (ltb s.f_size) sum_small ∙ large in
      let copy = copied (file + offset) buf n in
      let grow : ℕ → Run Client (Ret ℕ) =
        λ z. try (ftruncate granted content file (ok devfile_id) z) (λ _. copy) s in
      if_false (ltb maxfilesize (u32 (offset + n))) (done (err no_disk) s)
        (if ltb s.f_size (u32 (offset + n)) then grow (u32 (offset + n)) else copy s) not_too_large
      ∙ if_true (ltb s.f_size (u32 (offset + n))) (grow (u32 (offset + n))) (copy s) large'
      ∙ ap grow sum_small
      ∙ ap (λ r. and_then r (on_ok (λ _. copy))) run

  write_behind : ltb s.f_size (offset + n) ≡ true → IsWritten
  unfolding IsWritten
  write_behind large =
      let more : s.f_size < offset + n = ground (arith, large) in
      let (s1, run, g) = ftruncate_grows content file (offset + n) s (omega (arith, more)) fits in
      (
        record s1 { mem = bcopy n s1.mem buf (file + offset) },
        enlarged_run s1 large run,
        record {
          bytes = copied_bytes s1.mem (λ a out. g.outside a (omega (arith, out, fits, more)));
          same_size = g.same_size;
          server = g.same_server ∙ rw large refl;
          there = λ j le lt.
              let start = round_up s.f_size in
              let k = j - start / by2pg in
              let z : by2pg * j ≡ start + by2pg * k = omega (arith, le) in
              ap s1.mapped z ∙ g.there k (omega (arith, z, lt, fits));
        },
      )

  file_write_lem : IsWritten
  file_write_lem = elim (Bool-cases (ltb s.f_size (offset + n))) [
    | inl large ↦ write_behind large
    | inr small ↦ write_inside small
  ]

read_there :
    (size file to n offset : ℕ) (m : ℕ → ℕ)
    → offset ≤ size
    → offset + n ≤ maxfilesize
    → (to + n ≤ file) ⊎ (file + maxfilesize ≤ to)
    → ((file_read size m file to n offset).1 ≡ up_to_end size n offset)
      × ((i : ℕ)
          → i < up_to_end size n offset
          → (file_read size m file to n offset).0 (to + i) ≡ m (file + offset + i))
unfolding file_read
read_there size file to n offset m le fits away =
    let r = size_read size n offset le (omega (arith, fits)) in
    let few = fewer size n offset in
    (
      r,
      λ i lt.
          ap (λ k. bcopy k m (file + offset) to (to + i)) r
          ∙ bcopy_lem (up_to_end size n offset) (file + offset) to i m
              (omega (arith, away, few, fits)) lt,
    )

-- On a file's descriptor, when its calls succeed, `file_write` of n bytes at an offset inside a file and up to the largest size writes all of
-- them, makes the server's size large enough and maps the pages behind the old end. The descriptor keeps its
-- old size: a `file_read` of the same place through it then gives what was written only up to that size.
-- The buffers are apart from the file's region.
pub file_read-file_write :
    (content : ℕ → ℕ) (file buf to n offset : ℕ) (s : Client)
    → offset ≤ s.f_size
    → s.f_size ≤ maxfilesize
    → offset + n ≤ maxfilesize
    → (buf + n ≤ file) ⊎ (file + maxfilesize ≤ buf)
    → (to + n ≤ file) ⊎ (file + maxfilesize ≤ to)
    → (s' : Client) × (file_write granted content file (ok devfile_id) buf n offset s
        ≡ done (ok n) s')
      × Written file buf n offset s s'
      × ((file_read s'.f_size s'.mem file to n offset).1 ≡ up_to_end s.f_size n offset)
      × ((i : ℕ)
          → i < up_to_end s.f_size n offset
          → (file_read s'.f_size s'.mem file to n offset).0 (to + i) ≡ s.mem (buf + i))
unfolding IsWritten
file_read-file_write content file buf to n offset s inside usual fits apart away =
    let (s', run, w) = file_write_lem content file buf n offset s inside usual fits apart in
    let (amount, bytes) =
      read_there s'.f_size file to n offset s'.mem (omega (arith, inside, w.same_size)) fits away in
    let few = fewer s.f_size n offset in
    (
      s',
      run,
      w,
      amount ∙ ap (λ z. up_to_end z n offset) w.same_size,
      λ i lt. bytes i (rw w.same_size lt) ∙ w.bytes i (omega (arith, lt, few)),
    )
