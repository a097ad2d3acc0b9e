-- ===== src/User/Tests/Files.antt =====
-- Reading a file of 10 bytes in memory, and requests to the file server.
use demo2s.Base.{
  ◌==◌, ℕ, ok, ◌+◌, ◌≤◌, ◌<◌, ◌≡◌, ◌⊎◌, inl, refl, [], ◌∷◌, done, err, inval, bad_path, arith,
}
use demo2s.Fs.Serve.{open_lookup, request_path}
use demo2s.Fs.Tests.Requests.{serving0}
use demo2s.User.Fsipc.{
  maxpathlen, fsipc, request, fsipc_map, fsipc_set_size, fsipc_close, fsipc_dirty, fsipc_open,
  fsipc_remove,
}
use demo2s.User.Fsipc.Calls.{with_refusal, fsipc-open_lookup, fsipc_open-request_path}
use demo2s.Fs.Serve.{devfile_id}
use demo2s.User.File.{Client, file_read, file_write}
use demo2s.User.File.Grow.{granted}
use demo2s.User.File.Writes.{up_to_end, Written, file_read-file_write}
use demo2s.User.File.Bytes.{file_read_lem}

-- The file is at 4096, the buffer at 100, and 8 bytes are asked for at offset 6.
file_read_lem_example :
    ((file_read 10 (λ i. i) 4096 100 8 6).1 ≤ 8)
    × (((file_read 10 (λ i. i) 4096 100 8 6).1 ≡ 0)
        ⊎ (6 + (file_read 10 (λ i. i) 4096 100 8 6).1 ≤ 10))
    × (((file_read 10 (λ i. i) 4096 100 8 6).1 ≡ 8)
        ⊎ (10 ≤ 6 + (file_read 10 (λ i. i) 4096 100 8 6).1))
    × ((i : ℕ)
        → i < (file_read 10 (λ i. i) 4096 100 8 6).1
        → (file_read 10 (λ i. i) 4096 100 8 6).0 (100 + i) ≡ 4096 + 6 + i)
    × ((i : ℕ) → (i < 100) ⊎ (100 + 8 ≤ i) → (file_read 10 (λ i. i) 4096 100 8 6).0 i ≡ i)
file_read_lem_example = file_read_lem 10 4096 100 8 6 (λ i. i) (omega arith) (inl (omega arith))

-- A file of 10 bytes, and memory
abbrev client : Client
client = record { mem = λ i. i; f_size = 10; o_size = 10; mapped = λ i. i == 0; calls = 0 }

-- 8 bytes are written at offset 6 of the file, from 100, and read back to 200: the last 4 are not read.
file_read-file_write_example :
    (s' : Client) × (file_write granted (λ i. 0) 4096 (ok devfile_id) 100 8 6 client
      ≡ done (ok 8) s')
    × Written 4096 100 8 6 client s'
    × ((file_read s'.f_size s'.mem 4096 200 8 6).1 ≡ up_to_end 10 8 6)
    × ((i : ℕ)
        → i < up_to_end 10 8 6
        → (file_read s'.f_size s'.mem 4096 200 8 6).0 (200 + i) ≡ 100 + i)
file_read-file_write_example =
    file_read-file_write (λ i. 0) 4096 100 200 8 6 client (omega arith) (omega arith) (omega arith)
      (inl (omega arith)) (inl (omega arith))

-- The id 2049 names no open file.
unknown : open_lookup 2049 serving0 ≡ done (err inval) serving0
unfolding open_lookup
unknown = refl

fsipc-open_lookup_example :
    (fsipc_map 4098 2049 3 serving0 ≡ done (err inval) (with_refusal 4098 serving0))
    × (fsipc_set_size 4098 2049 3 serving0 ≡ done (err inval) (with_refusal 4098 serving0))
    × (fsipc_close 4098 2049 serving0 ≡ done (err inval) (with_refusal 4098 serving0))
    × (fsipc_dirty 4098 2049 3 serving0 ≡ done (err inval) (with_refusal 4098 serving0))
fsipc-open_lookup_example = fsipc-open_lookup 4098 2049 3 serving0 unknown

fsipc_open-request_path_example :
    ((maxpathlen ≤ 3)
      × (fsipc_open 4098 (47 ∷ 97 ∷ 98 ∷ []) 0 serving0 ≡ done (err bad_path) serving0)
      × (fsipc_remove 4098 (47 ∷ 97 ∷ 98 ∷ []) serving0 ≡ done (err bad_path) serving0))
    ⊎ ((request_path (47 ∷ 97 ∷ 98 ∷ []) ≡ 47 ∷ 97 ∷ 98 ∷ [])
        × (fsipc_open 4098 (47 ∷ 97 ∷ 98 ∷ []) 0 serving0
            ≡ fsipc 4098 (request 1 (47 ∷ 97 ∷ 98 ∷ []) 0 0 0 0) serving0)
        × (fsipc_remove 4098 (47 ∷ 97 ∷ 98 ∷ []) serving0
            ≡ fsipc 4098 (request 6 (47 ∷ 97 ∷ 98 ∷ []) 0 0 0 0) serving0))
fsipc_open-request_path_example = fsipc_open-request_path 4098 0 (47 ∷ 97 ∷ 98 ∷ []) serving0
