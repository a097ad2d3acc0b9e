-- ===== src/User/Fsipc.antt =====
-- user/fsipc.c: the client's side of the requests to fs/serv.c. A call is made at the moment when the server
-- takes up the request, and has the server's state as its own; a path is the list of its characters.
pub mod Calls
use demo2s.Base.{
  ℕ, ◌+◌, ◌-◌, Option, none, some, List, [], ◌∷◌, ◌==◌, leb, if◌then◌else◌, length, bit_and, Run, M,
  done, leave, panic, and_then, Ret, ok, err, bad_path,
}
use demo2s.Kern.Mmu.{pte_p, pte_w, pte_u}
use demo2s.Fs.Serve.{Serving, Request, Reply, serve}

abbrev pub maxpathlen : ℕ
maxpathlen = 1024

abbrev pub last : List Reply → Option Reply
last [] = none
last (p ∷ []) = some p
last (p ∷ q ∷ rest) = last (q ∷ rest)

-- `ipc_recv` waits for ever where no answer comes.
abbrev pub received : Option Reply → M Serving (Ret ℕ)
received none s = leave s
received (some p) s = done (p.value) s

-- `ipc_send` and `ipc_recv`; the result is the answer's value.
unfoldable pub fsipc : ℕ → Request → M Serving (Ret ℕ)
fsipc me r s = and_then (serve me (some r) s) (λ _ s'. received (last s'.replies) s')

abbrev pub request : ℕ → List ℕ → ℕ → ℕ → ℕ → ℕ → Request
request code path omode fileid offset size = record {
  req = code;
  req_path = path;
  req_omode = omode;
  req_fileid = fileid;
  req_offset = offset;
  req_size = size;
}

unfoldable pub fsipc_open : ℕ → List ℕ → ℕ → M Serving (Ret ℕ)
unfolding fsipc
fsipc_open me path omode s =
    if leb maxpathlen (length path)
    then done (err bad_path) s
    else fsipc me (request 1 path omode 0 0 0) s

-- The server's pages come with PTE_P, PTE_U, PTE_W and PTE_LIBRARY, which are the permissions asked for; an
-- answer of 0 without a page comes with none, and is a panic.
abbrev pub map_answer : Option Reply → M Serving (Ret ℕ)
map_answer none s = leave s
map_answer (some p) s = elim p.value [
  | err e ↦ done (err e) s
  | ok v ↦ elim p.page [ none ↦ panic | some q ↦ done (ok 0) s ]
]

unfoldable pub fsipc_map : ℕ → ℕ → ℕ → M Serving (Ret ℕ)
fsipc_map me fileid offset s =
    and_then (serve me (some (request 2 [] 0 fileid offset 0)) s)
      (λ _ s'. map_answer (last s'.replies) s')

unfoldable pub fsipc_set_size : ℕ → ℕ → ℕ → M Serving (Ret ℕ)
unfolding fsipc
fsipc_set_size me fileid size = fsipc me (request 3 [] 0 fileid 0 size)

unfoldable pub fsipc_close : ℕ → ℕ → M Serving (Ret ℕ)
unfolding fsipc
fsipc_close me fileid = fsipc me (request 4 [] 0 fileid 0 0)

unfoldable pub fsipc_dirty : ℕ → ℕ → ℕ → M Serving (Ret ℕ)
unfolding fsipc
fsipc_dirty me fileid offset = fsipc me (request 5 [] 0 fileid offset 0)

unfoldable pub fsipc_remove : ℕ → List ℕ → M Serving (Ret ℕ)
unfolding fsipc
fsipc_remove me path s =
    if leb maxpathlen (length path)
    then done (err bad_path) s
    else fsipc me (request 6 path 0 0 0 0) s

unfoldable pub fsipc_sync : ℕ → M Serving (Ret ℕ)
unfolding fsipc
fsipc_sync me = fsipc me (request 7 [] 0 0 0 0)
