-- ===== src/User/Fd.antt =====
-- user/fd.c: the descriptor table of an environment. Slot i has a page at INDEX2FD(i), which holds the
-- `struct Fd`, and 1024 pages of data from INDEX2DATA(i) on. A page may be mapped in several slots and in
-- other environments, so that a slot names its page and the contents are kept by page. A page table
-- entry that is not present is 0. A negative descriptor is a word from 2^31 on.
pub mod Dup
pub mod Read
use demo2s.Base.{
  ℕ, zero, suc, ◌+◌, ◌-◌, ◌*◌, ◌%◌, ◌^◌, Bool, true, false, not, ◌||◌, ◌&&◌, Option, none, some,
  List, [], ◌∷◌, ◌++◌, Run, M, done, leave, panic, pure, and_then, ◌>>=◌, ◌>>◌, get, modify, try,
  on_ok, Ret, ok, err, Error, inval, no_mem, max_open, ltb, leb, ◌==◌, if◌then◌else◌, u32, update,
  length,
}

abbrev pub maxfd : ℕ
maxfd = 32

-- The pages of a slot's data, PDMAP / BY2PG.
abbrev pub data_pages : ℕ
data_pages = 1024

-- struct Fd
pub record Fd : Type 0 where
  pub fd_dev_id : ℕ
  pub fd_offset : ℕ
  pub fd_omode : ℕ

-- `slot i` is the page of slot i, `data_page i j` the j-th page of its data with its permissions, and
-- `data_dir i` tells whether there is a page table for the data. The kernel grants a page table
-- for the n-th mapping that needs one when `grants n`.
pub record Fds : Type 0 where
  pub fd_dir : Bool
  pub slot : ℕ → Option ℕ
  pub fds : ℕ → Fd
  pub data_dir : ℕ → Bool
  pub data_page : ℕ → ℕ → Option (ℕ × ℕ)
  pub grants : ℕ → Bool
  pub asked : ℕ

-- struct Dev, without its name and `dev_stat`. `dev_read` gives the bytes, `dev_write` the number of bytes
-- written; both take the page of the descriptor, and the offset.
pub record Dev : Type 0 where
  pub dev_id : ℕ
  pub dev_read : ℕ → ℕ → ℕ → M Fds (Ret (List ℕ))
  pub dev_write : ℕ → List ℕ → ℕ → M Fds (Ret ℕ)
  pub dev_close : ℕ → M Fds (Ret ℕ)

-- The loop of `fd_alloc` over `left` slots from the i-th on.
unfoldable pub fd_alloc_from : ℕ → ℕ → Fds → Ret ℕ
fd_alloc_from zero i s = err max_open
fd_alloc_from (suc left) i s =
    let rest = fd_alloc_from left (i + 1) s in
    if not s.fd_dir then ok i else elim (s.slot i) [ none ↦ ok i | some p ↦ rest ]

unfoldable pub fd_alloc : M Fds (Ret ℕ)
unfolding fd_alloc_from
fd_alloc s = done (fd_alloc_from maxfd 0 s) s

-- `sys_mem_unmap(0, fd)`
unfoldable pub fd_close : ℕ → M Fds (Unit {0})
fd_close i s = done tt (record s { slot = update s.slot i none })

-- The result is the page of the descriptor.
unfoldable pub fd_lookup : ℕ → M Fds (Ret ℕ)
fd_lookup fdnum s =
    let r = (elim (s.slot fdnum) as (λ _. Ret ℕ) [ none ↦ err inval | some p ↦ ok p ]) in
    if ltb fdnum maxfd && s.fd_dir then done r s else done (err inval) s

abbrev pub fd_of : ℕ → Fds → Fd
fd_of p s = s.fds p

abbrev pub set_offset : ℕ → ℕ → Fds → Fds
set_offset p offset s = record s { fds = update s.fds p (record (s.fds p) { fd_offset = offset }) }

-- `sys_mem_map` of a page to the j-th page of the data of slot i, and to the page of its descriptor.
unfoldable pub map_data : ℕ → ℕ → ℕ × ℕ → M Fds (Ret (Unit {0}))
map_data i j pp s =
    let mapped = record s {
      data_page = update s.data_page i (update (s.data_page i) j (some pp));
      data_dir = update s.data_dir i true;
      asked = (if s.data_dir i then s.asked else s.asked + 1);
    } in
    if s.data_dir i || s.grants s.asked
    then done (ok tt) mapped
    else done (err no_mem) (record s { asked = s.asked + 1 })

-- The table of the descriptors' pages is there, since the old one has its page in it. An old descriptor that
-- is mapped no more has nothing to map.
unfoldable pub map_fd : ℕ → Option ℕ → M Fds (Ret (Unit {0}))
map_fd i none s = done (err inval) s
map_fd i (some p) s = done (ok tt) (record s { slot = update s.slot i (some p) })

-- The loop of `dup` over `left` pages of data from the j-th on.
unfoldable pub dup_data : ℕ → ℕ → ℕ → ℕ → M Fds (Ret (Unit {0}))
unfolding map_data
dup_data old new zero j s = done (ok tt) s
dup_data old new (suc left) j s = elim (s.data_page old j) [
  | none ↦ dup_data old new left (j + 1) s
  | some pp ↦ try (map_data new j pp) (λ _. dup_data old new left (j + 1)) s
]

-- `err:` in `dup`
abbrev pub undo_dup : ℕ → Fds → Fds
undo_dup new s = record s {
  slot = update s.slot new none;
  data_page = update s.data_page new (λ j. none);
}

-- What `dup` maps. The new descriptor is not checked; from MAXFD on there are other pages.
unfoldable pub copy_slot : ℕ → ℕ → M Fds (Ret (Unit {0}))
copy_slot old new s =
    (if s.data_dir old
        then try (dup_data old new data_pages 0) (λ _ s'. map_fd new (s'.slot old) s')
        else (λ s'. map_fd new (s'.slot old) s'))
      s

-- The devices of `devtab`.
module _ (devtab : List Dev) where
  abbrev find_dev : ℕ → List Dev → Option Dev
  find_dev id [] = none
  find_dev id (d ∷ ds) = if d.dev_id == id then some d else find_dev id ds

  unfoldable pub dev_lookup : ℕ → M Fds (Ret Dev)
  dev_lookup id s = done (elim (find_dev id devtab) [ none ↦ err inval | some d ↦ ok d ]) s

  -- `fd_lookup` and `dev_lookup`: the page of the descriptor and its device.
  unfoldable pub lookup : ℕ → M Fds (Ret (ℕ × Dev))
  unfolding fd_lookup dev_lookup
  lookup fdnum =
      try (fd_lookup fdnum) λ p s. try (dev_lookup (fd_of p s).fd_dev_id) (λ d. pure (ok (p, d))) s

  unfoldable pub close : ℕ → M Fds (Ret ℕ)
  unfolding lookup fd_close
  close fdnum = try (lookup fdnum) λ (p, d). do r ← d.dev_close p; fd_close fdnum; pure r

  unfoldable pub close_from : ℕ → ℕ → M Fds (Unit {0})
  unfolding close
  close_from zero i = pure tt
  close_from (suc left) i = do _ ← close i; close_from left (i + 1)

  unfoldable pub close_all : M Fds (Unit {0})
  unfolding close_from
  close_all = close_from maxfd 0

  unfoldable pub dup : ℕ → ℕ → M Fds (Ret ℕ)
  unfolding copy_slot close
  dup old new = try (fd_lookup old) λ p. do
    _ ← close new
    r ← copy_slot old new
    elim r [ ok u ↦ pure (ok new) | err e ↦ (do modify (undo_dup new); pure (err e)) ]

  abbrev pub accmode : Fd → ℕ
  accmode fd = fd.fd_omode % 4

  unfoldable pub read : ℕ → ℕ → M Fds (Ret (List ℕ))
  read fdnum n = try (lookup fdnum) λ (p, d) s.
      if accmode (fd_of p s) == 1
      then done (err inval) s
      else (try (d.dev_read p n (fd_of p s).fd_offset)
            λ bs s'. done (ok bs) (set_offset p (u32 ((fd_of p s').fd_offset + length bs)) s'))
          s

  unfoldable pub write : ℕ → List ℕ → M Fds (Ret ℕ)
  write fdnum bs = try (lookup fdnum) λ (p, d) s.
      if accmode (fd_of p s) == 0
      then done (err inval) s
      else (try (d.dev_write p bs (fd_of p s).fd_offset)
            λ r s'. done (ok r) (set_offset p (u32 ((fd_of p s').fd_offset + r)) s'))
          s

  unfoldable pub seek : ℕ → ℕ → M Fds (Ret (Unit {0}))
  unfolding fd_lookup
  seek fdnum offset = try (fd_lookup fdnum) λ p s. done (ok tt) (set_offset p offset s)

  -- `readn`: `got` has the bytes that were read, at most `left` reads follow.
  unfoldable pub readn_from : ℕ → ℕ → ℕ → List ℕ → M Fds (Ret (List ℕ))
  unfolding read
  readn_from zero fdnum n got = pure (ok got)
  readn_from (suc left) fdnum n got =
      if leb n (length got)
      then pure (ok got)
      else (try (read fdnum (n - length got))
          λ bs. if length bs == 0 then pure (ok got) else readn_from left fdnum n (got ++ bs))

  unfoldable pub readn : ℕ → ℕ → M Fds (Ret (List ℕ))
  unfolding readn_from
  readn fdnum n = readn_from n fdnum n []
