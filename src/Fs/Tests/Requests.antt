-- ===== src/Fs/Tests/Requests.antt =====
-- Requests to a concrete file server.
use demo2s.Base.{
  update, ◌≡◌, refl, [], ◌∷◌, ◌++◌, if◌then◌else◌, ◌==◌, ◌∙◌, none, some, done, ok, err, inval,
  arith,
}
use demo2s.Fs.State.{Server}
use demo2s.Fs.Serve.{
  Serving, Request, Reply, open_alloc, open_lookup, serve, serve_close, claim, empty_filefd,
  ipc_send,
}
use demo2s.Fs.Serve.Table.{search_on, search_one, IsTable, open_lookup-open_alloc}
use demo2s.Fs.Serve.Replies.{serve_answers}
use demo2s.Fs.Tests.{server0}

-- Slot 0 is open in a client, slot 1 was and is free, and the others have no page.
abbrev pub serving0 : Serving
serving0 = record {
  fs = server0;
  opentab = λ i. record { o_file = none; o_fileid = i; o_mode = 0 };
  filefds = λ i. empty_filefd;
  refs = λ i. if i == 0 then 2 else if i == 1 then 1 else 0;
  replies = [];
}

serving0-IsTable : IsTable serving0
serving0-IsTable = record { id = λ i lt. omega (arith, lt); small = λ i lt. omega (arith, lt) }

abbrev serving1 : Serving
serving1 = claim 1 serving0

serving1-allocated : open_alloc serving0 ≡ done (ok 1) serving1
unfolding open_alloc
serving1-allocated = search_on 1023 0 serving0 (omega arith) ∙ search_one 1022 1 serving0 refl

open_lookup-open_alloc_example :
    (open_lookup 1025 (record serving1 { refs = λ i. 2 })
      ≡ done (ok 1) (record serving1 { refs = λ i. 2 }))
    × (open_lookup 1 (record serving1 { refs = λ i. 2 })
        ≡ done (err inval) (record serving1 { refs = λ i. 2 }))
open_lookup-open_alloc_example =
    open_lookup-open_alloc serving0 serving1 (record serving1 { refs = λ i. 2 }) 1 serving0-IsTable
      serving1-allocated refl (omega arith)

-- A request to close a file that is not open.
abbrev close_free : Request
close_free = record {
  req = 4;
  req_path = [];
  req_omode = 0;
  req_fileid = 2049;
  req_offset = 0;
  req_size = 0;
}

abbrev refused : Reply
refused = record { whom = 2049; value = err inval; page = none }

close_free-served :
    serve 2049 (some close_free) serving0 ≡ done tt (record serving0 { replies = refused ∷ [] })
unfolding serve serve_close open_lookup ipc_send
close_free-served = refl

serve_answers_example : (p : Reply) × ((refused ∷ []) ≡ [] ++ p ∷ []) × (p.whom ≡ 2049)
serve_answers_example =
    serve_answers 2049 close_free serving0 (record serving0 { replies = refused ∷ [] })
      (omega arith) (omega arith) close_free-served

-- Slot 0 is open on the file at word 0 of block 3, whose block 0 is block 3 as well.
abbrev with_block : Server
with_block = record server0 { mem = update server0.mem 3 (update (server0.mem 3) 34 3) }

abbrev serving2 : Serving
serving2 = record serving0 {
  fs = with_block;
  opentab = λ i. record { o_file = some (3, 0); o_fileid = i; o_mode = 0 };
}
