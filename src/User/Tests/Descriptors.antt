-- ===== src/User/Tests/Descriptors.antt =====
-- A table of descriptors with a device that gives zeros.
use demo2s.Base.{
  ℕ, ◌+◌, ◌<◌, ◌≡◌, refl, true, none, some, [], ◌∷◌, done, ok, arith, pure, if◌then◌else◌, ◌==◌,
  ◌&&◌, update,
}
use demo2s.User.Fd.{
  Fds, Dev, fd_alloc, fd_alloc_from, fd_lookup, fd_close, dev_lookup, lookup, close, dup, readn,
  readn_from,
}
use demo2s.User.Fd.Dup.{dup_lem, or_kept}
use demo2s.User.Fd.Read.{readn_lem}

abbrev zeros : Dev
zeros = record {
  dev_id = 99;
  dev_read = λ p n offset. pure (ok (0 ∷ []));
  dev_write = λ p bs offset. pure (ok 1);
  dev_close = λ p. pure (ok 0);
}

-- Descriptors 0 and 1 are open, and 0 has a page of data.
abbrev fds0 : Fds
fds0 = record {
  fd_dir = true;
  slot = λ i. if i == 0 then some 7 else if i == 1 then some 8 else none;
  fds = λ p. record { fd_dev_id = 99; fd_offset = 0; fd_omode = 2 };
  data_dir = λ i. true;
  data_page = λ i j. if i == 0 && j == 0 then some (9, 7) else none;
  grants = λ n. true;
  asked = 0;
}

abbrev fds1 : Fds
fds1 = record fds0 { slot = update fds0.slot 1 none }

fds1-closed : close (zeros ∷ []) 1 fds0 ≡ done (ok 0) fds1
unfolding close lookup fd_lookup dev_lookup fd_close
fds1-closed = refl

fds0-found : fd_lookup 0 fds0 ≡ done (ok 7) fds0
unfolding fd_lookup
fds0-found = refl

dup_lem_example :
    (s' : Fds) × (dup (zeros ∷ []) 0 1 fds0 ≡ done (ok 1) s')
    × (fd_lookup 1 s' ≡ done (ok 7) s')
    × (fd_lookup 0 s' ≡ done (ok 7) s')
    × ((i : ℕ) → i < 1024 → s'.data_page 1 i ≡ or_kept (fds1.data_page 0 i) (fds1.data_page 1 i))
    × (s'.fds ≡ fds1.fds)
dup_lem_example =
    dup_lem (zeros ∷ []) 0 1 7 fds0 fds1 (ok 0) fds0-found fds1-closed refl refl refl (λ n. refl)
      (omega arith) (omega arith) (omega arith)

readn_lem_example : readn_from (zeros ∷ []) (3 + 4) 0 3 [] fds0 ≡ readn (zeros ∷ []) 0 3 fds0
readn_lem_example = readn_lem (zeros ∷ []) 0 3 4 fds0

fds0-allocated : fd_alloc fds0 ≡ done (ok 2) fds0
unfolding fd_alloc fd_alloc_from
fds0-allocated = refl
