-- ===== src/Fs/Serve.antt =====
-- fs/serv.c: the table of open files, and the requests that clients send. The page of a `struct Filefd`
-- is named by its index in the table, and the number of its mappings, which clients change, is state
-- that `pageref` reads. Replies are kept in the order in which they are sent.
pub mod Table
pub mod Replies
pub mod Offsets
use demo2s.Base.{
  ℕ, zero, suc, ◌+◌, ◌-◌, ◌*◌, ◌/◌, ◌%◌, ◌^◌, Bool, true, false, not, ◌&&◌, ◌||◌, Option, none,
  some, List, [], ◌∷◌, ◌++◌, M, Run, done, leave, panic, pure, ◌>>=◌, ◌>>◌, get, modify, try, on_ok,
  and_then, Ret, ok, err, Error, inval, no_mem, max_open, ◌==◌, ltb, leb, if◌then◌else◌, u32,
  update, bit_and,
}
use demo2s.Fs.State.{Ptr, Server, peek}
use demo2s.Fs.Blocks.{read_block}
use demo2s.Fs.File.{
  f_type, ftype_dir, file2blk, file_map_block, set_dirs, file_set_size, file_dirty,
}
use demo2s.Fs.Dir.{file_open, file_create, file_remove}
use demo2s.Fs.Sync.{fs_sync}

-- struct Open; `o_ff` is the slot's own page.
pub record Open : Type 0 where
  pub o_file : Option Ptr
  pub o_fileid : ℕ
  pub o_mode : ℕ

-- struct Filefd: the copy of the file node, word by word, and the fields of the descriptor.
pub record Filefd : Type 0 where
  pub f_file : ℕ → ℕ
  pub f_fileid : ℕ
  pub fd_omode : ℕ
  pub fd_dev_id : ℕ

-- What `ipc_send` carries: the receiver, the value, and the page, if one is sent.
pub data Page : Type 0 where
  filefd block : ℕ → Page

-- A value that is not an error is `ok` with the word.
pub record Reply : Type 0 where
  pub whom : ℕ
  pub value : Ret ℕ
  pub page : Option Page

pub record Serving : Type 0 where
  pub fs : Server
  pub opentab : ℕ → Open
  pub filefds : ℕ → Filefd
  pub refs : ℕ → ℕ
  pub replies : List Reply

abbrev pub maxopen : ℕ
maxopen = 1024

-- A call of fs/fs.c.
abbrev pub lift_run : {A : Type 0} → Serving → Run Server A → Run Serving A
lift_run s (done a fs) = done a (record s { fs = fs })
lift_run s (leave fs) = leave (record s { fs = fs })
lift_run s panic = panic

abbrev pub lift : {A : Type 0} → M Server A → M Serving A
lift m s = lift_run s (m s.fs)

-- The receiver waits for the answer. A page that the server has not mapped cannot be sent: the system call fails, and `ipc_send` panics.
abbrev pub sendable : Option Page → Serving → Bool
sendable none s = true
sendable (some (filefd i)) s = not (s.refs i == 0)
sendable (some (block b)) s = s.fs.mapped b

unfoldable pub ipc_send : ℕ → Ret ℕ → Option Page → M Serving (Unit {0})
ipc_send whom value page s =
    if sendable page s
    then done tt (record s {
      replies = s.replies ++ (record { whom = whom; value = value; page = page }) ∷ [];
    })
    else panic

-- `serve_init`
unfoldable pub serve_init : Serving → Serving
serve_init s = record s { opentab = λ i. record (s.opentab i) { o_fileid = i } }

-- `opentab[i].o_fileid += MAXOPEN` and the page cleared.
abbrev pub empty_filefd : Filefd
empty_filefd = record { f_file = λ _. 0; f_fileid = 0; fd_omode = 0; fd_dev_id = 0 }

abbrev pub claim : ℕ → Serving → Serving
claim i s = record s {
  opentab =
      update s.opentab i
        (record (s.opentab i) { o_fileid = u32 ((s.opentab i).o_fileid + maxopen) });
  filefds = update s.filefds i empty_filefd;
}

-- `sys_mem_alloc` for the page of a slot: the server's mapping is the only one.
unfoldable pub filefd_alloc : ℕ → M Serving (Ret (Unit {0}))
filefd_alloc i s =
    let fs = record (s.fs) { asked = s.fs.asked + 1 } in
    if s.fs.grants s.fs.asked
    then done (ok tt) (record s { fs = fs; refs = update s.refs i 1 })
    else done (err no_mem) (record s { fs = fs })

-- The loop of `open_alloc`, over `left` slots from the i-th on. The result is the slot.
unfoldable pub open_alloc_from : ℕ → ℕ → M Serving (Ret ℕ)
open_alloc_from zero i s = done (err max_open) s
open_alloc_from (suc left) i s =
    let rest = open_alloc_from left (i + 1) s in
    if s.refs i == 0
    then (try (filefd_alloc i) λ _ s'. done (ok i) (claim i s')) s
    else if s.refs i == 1
    then done (ok i) (claim i s)
    else rest

unfoldable pub open_alloc : M Serving (Ret ℕ)
open_alloc = open_alloc_from maxopen 0

unfoldable pub open_lookup : ℕ → M Serving (Ret ℕ)
open_lookup fileid s =
    let i = fileid % maxopen in
    if s.refs i == 1 || not ((s.opentab i).o_fileid == fileid)
    then done (err inval) s
    else done (ok i) s

-- A path as the server copies it: at most 1023 characters.
abbrev pub take : ℕ → List ℕ → List ℕ
take zero cs = []
take (suc n) [] = []
take (suc n) (c ∷ cs) = c ∷ take n cs

abbrev pub request_path : List ℕ → List ℕ
request_path path = take 1023 path

abbrev pub o_wronly : ℕ
o_wronly = 1

abbrev pub o_creat : ℕ
o_creat = 0x100

-- The file of `serve_open`.
unfoldable pub open_or_create : List ℕ → ℕ → M Server (Ret Ptr)
open_or_create path mode =
    if bit_and mode o_creat == 0
    then (do
      r ← file_open path
      elim r [
        | ok f ↦ pure (ok f)
        | err e ↦ (if bit_and mode o_wronly == 0 then pure (err e) else file_create path)
      ])
    else file_create path

abbrev pub devfile_id : ℕ
devfile_id = 102

-- The fields that a successful open writes.
abbrev pub opened : ℕ → Ptr → ℕ → Serving → Serving
opened i (b, o) mode s = record s {
  opentab = update s.opentab i (record (s.opentab i) { o_file = some (b, o); o_mode = mode });
  filefds = update s.filefds i (record {
    f_file = λ w. if ltb w 64 then peek s.fs (b, o + w) else 0;
    f_fileid = (s.opentab i).o_fileid;
    fd_omode = mode;
    fd_dev_id = devfile_id;
  });
}

abbrev pub send_ret : ℕ → Ret (Unit {0}) → M Serving (Unit {0})
send_ret envid (ok u) = ipc_send envid (ok 0) none
send_ret envid (err e) = ipc_send envid (err e) none

-- The part of `serve_open` after `open_alloc`.
unfoldable pub serve_file : ℕ → List ℕ → ℕ → ℕ → M Serving (Unit {0})
serve_file envid path mode i = do
  r ← lift (open_or_create (request_path path) mode)
  elim r [
    | err e ↦ ipc_send envid (err e) none
    | ok f ↦ (do modify (opened i f mode); ipc_send envid (ok 0) (some (filefd i)))
  ]

-- A file id with the sign bit is taken for an error of `open_alloc`, and sent as it is.
unfoldable pub serve_open : ℕ → List ℕ → ℕ → M Serving (Unit {0})
unfolding ipc_send
serve_open envid path mode = do
  a ← open_alloc
  elim a [
    | err e ↦ ipc_send envid (err e) none
    | ok i ↦ (λ s.
        if leb (2 ^ 31) ((s.opentab i).o_fileid)
        then ipc_send envid (ok ((s.opentab i).o_fileid)) none s
        else serve_file envid path mode i s)
  ]

-- `file_get_block` as `serve_map` sees it: the block is in `dva` also when it could not be read.
unfoldable pub map_and_read : Ptr → ℕ → M Server (Ret ℕ × Option Page)
map_and_read f n = do
  m ← file_map_block f n true
  elim m [
    | err e ↦ pure (err e, none)
    | ok b ↦ (do
      r ← read_block b
      elim r [
        | err e ↦ pure (err e, some (block b))
        | ok (b, isnew) ↦ (λ s.
            if isnew && peek s (f_type f) == ftype_dir
            then done (ok 0, some (block b)) (set_dirs f b file2blk 0 s)
            else done (ok 0, some (block b)) s)
      ])
  ]

-- The open file of a request, and the file in it.
unfoldable pub requested : ℕ → M Serving (Ret Ptr)
unfolding open_lookup
requested fileid =
    try (open_lookup fileid)
      λ i s. elim ((s.opentab i).o_file) [ none ↦ done (err inval) s | some f ↦ done (ok f) s ]

unfoldable pub serve_map : ℕ → ℕ → ℕ → M Serving (Unit {0})
serve_map envid fileid offset = do
  r ← requested fileid
  elim r [
    | err e ↦ ipc_send envid (err e) none
    | ok f ↦ (do (value, page) ← lift (map_and_read f offset); ipc_send envid value page)
  ]

unfoldable pub serve_set_size : ℕ → ℕ → ℕ → M Serving (Unit {0})
serve_set_size envid fileid size = do
  r ← try (requested fileid) λ f. lift (file_set_size f size)
  send_ret envid r

-- Nothing is closed: the table entry is free when the clients have unmapped the page.
unfoldable pub serve_close : ℕ → ℕ → M Serving (Unit {0})
serve_close envid fileid = do r ← try (open_lookup fileid) λ _. pure (ok tt); send_ret envid r

unfoldable pub serve_remove : ℕ → List ℕ → M Serving (Unit {0})
serve_remove envid path = do r ← lift (file_remove (request_path path)); send_ret envid r

unfoldable pub serve_dirty : ℕ → ℕ → ℕ → M Serving (Unit {0})
serve_dirty envid fileid offset = do
  r ← try (requested fileid) λ f. lift (file_dirty f offset)
  send_ret envid r

unfoldable pub serve_sync : ℕ → M Serving (Unit {0})
serve_sync envid = do lift fs_sync; ipc_send envid (ok 0) none

-- A message with an argument page: the request code, and the page read as the struct of each request.
pub record Request : Type 0 where
  pub req : ℕ
  pub req_path : List ℕ
  pub req_omode : ℕ
  pub req_fileid : ℕ
  pub req_offset : ℕ
  pub req_size : ℕ

-- One round of the loop of `serve`. A message without a page, and a code that is not a request, are
-- left without an answer.
unfoldable pub serve : ℕ → Option Request → M Serving (Unit {0})
serve whom none = pure tt
serve whom (some r) =
    if r.req == 1
    then serve_open whom (r.req_path) (r.req_omode)
    else if r.req == 2
    then serve_map whom (r.req_fileid) (r.req_offset)
    else if r.req == 3
    then serve_set_size whom (r.req_fileid) (r.req_size)
    else if r.req == 4
    then serve_close whom (r.req_fileid)
    else if r.req == 5
    then serve_dirty whom (r.req_fileid) (r.req_offset)
    else if r.req == 6
    then serve_remove whom (r.req_path)
    else if r.req == 7
    then serve_sync whom
    else pure tt
