-- ===== src/User/File/Bytes.antt =====
-- The bytes that `file_read` of user/file.c gives.
use demo2s.Base.{ℕ, ◌+◌, ◌^◌, ◌≤◌, ◌<◌, ◌≡◌, ◌⊎◌, arith}
use demo2s.User.Str.Laws.{bcopy_lem, bcopy_kept}
use demo2s.User.File.{read_size, file_read}

size_inside :
    (size n offset : ℕ)
    → offset + n < 2 ^ 32
    → (read_size size n offset ≤ n)
      × ((read_size size n offset ≡ 0) ⊎ (offset + read_size size n offset ≤ size))
unfolding read_size
size_inside size n offset small = ground arith

size_full :
    (size n offset : ℕ)
    → offset + n < 2 ^ 32
    → (read_size size n offset ≡ n) ⊎ (size ≤ offset + read_size size n offset)
unfolding read_size
size_full size n offset small = ground arith

room_for :
    (file buf size offset n r i : ℕ)
    → (buf + n ≤ file) ⊎ (file + size ≤ buf)
    → (r ≡ 0) ⊎ (offset + r ≤ size)
    → i < r
    → (buf ≤ file + offset) ⊎ (file + offset + r ≤ buf)
room_for file buf size offset n r i apart fits lt = omega (arith, apart, fits, lt)

outside : (buf n r i : ℕ) → r ≤ n → (i < buf) ⊎ (buf + n ≤ i) → (i < buf) ⊎ (buf + r ≤ i)
outside buf n r i le out = omega (arith, le, out)

-- `file_read` of n bytes at an offset, whose sum is below 2^32, into a buffer apart from the file: it never
-- reads past the end of the file, falls short of n only where what it gives reaches that end, gives the bytes of the file
-- from the offset on, and writes nowhere outside the buffer.
pub file_read_lem :
    (size file buf n offset : ℕ) (m : ℕ → ℕ)
    → offset + n < 2 ^ 32
    → (buf + n ≤ file) ⊎ (file + size ≤ buf)
    → ((file_read size m file buf n offset).1 ≤ n)
      × (((file_read size m file buf n offset).1 ≡ 0)
          ⊎ (offset + (file_read size m file buf n offset).1 ≤ size))
      × (((file_read size m file buf n offset).1 ≡ n)
          ⊎ (size ≤ offset + (file_read size m file buf n offset).1))
      × ((i : ℕ)
          → i < (file_read size m file buf n offset).1
          → (file_read size m file buf n offset).0 (buf + i) ≡ m (file + offset + i))
      × ((i : ℕ) → (i < buf) ⊎ (buf + n ≤ i) → (file_read size m file buf n offset).0 i ≡ m i)
unfolding file_read
file_read_lem size file buf n offset m small apart =
    let r = read_size size n offset in
    let (le, fits) = size_inside size n offset small in
    (
      le,
      fits,
      size_full size n offset small,
      (λ i lt.
          bcopy_lem r (file + offset) buf i m (room_for file buf size offset n r i apart fits lt)
            lt),
      λ i out. bcopy_kept r (file + offset) buf i m (outside buf n r i le out),
    )
