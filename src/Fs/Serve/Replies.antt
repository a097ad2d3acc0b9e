-- ===== src/Fs/Serve/Replies.antt =====
-- The answers that the file server of fs/serv.c sends.
use demo2s.Base.{
  ℕ, zero, suc, ◌+◌, ◌^◌, ◌≤◌, ◌≡◌, ◌⊎◌, inl, inr, refl, sym, ◌∙◌, Bool, true, false, Bool-cases,
  done, panic, leave, Run, M, Ret, arith, ok, err, if◌then◌else◌, leb, Option, none, some, List, [],
  ◌∷◌, ◌++◌, and_then, try, on_ok, modify, ◌>>=◌, pure, Error,
}
use demo2s.Fs.State.{Server, Ptr}
use demo2s.Fs.File.{file_dirty, file_set_size}
use demo2s.Fs.Dir.{file_remove}
use demo2s.Fs.Sync.{fs_sync}
use demo2s.Fs.Serve.Table.{search_granted, search_refused, search_one, search_on, zero_one_more}
use demo2s.Fs.Serve.{
  open_alloc_from, Serving, Page, Reply, Request, lift, lift_run, ipc_send, sendable, send_ret,
  serve, serve_open, serve_file, open_alloc, serve_map, map_and_read, requested, serve_set_size,
  serve_close, serve_remove, serve_dirty, serve_sync, open_lookup, open_or_create, opened,
  request_path, filefd,
}

-- Runs that end keep the replies, or add one to `whom`.
IsQuiet : {A : Type 0} → M Serving A → Type 0
IsQuiet {A} m = (s s' : Serving) (a : A) → m s ≡ done a s' → s'.replies ≡ s.replies

IsAnswer : ℕ → M Serving (Unit {0}) → Type 0
IsAnswer whom m =
    (s s' : Serving)
    → m s ≡ done tt s'
    → (r : Reply) × (s'.replies ≡ s.replies ++ r ∷ []) × (r.whom ≡ whom)

quiet_run :
    {A : Type 0} (s s' : Serving) (a : A) (r : Run Server A)
    → lift_run s r ≡ done a s'
    → s'.replies ≡ s.replies
quiet_run s s' a (done x fs) e = (let eq : s' ≡ record s { fs = fs } = cc in rw eq)
quiet_run s s' a (leave fs) e = absurd (ground (arith, e))
quiet_run s s' a panic e = absurd (ground (arith, e))

lift-IsQuiet : {A : Type 0} (m : M Server A) → IsQuiet (lift m)
unfolding IsQuiet
lift-IsQuiet m s s' a e = quiet_run s s' a (m s.fs) e

answer_run :
    {A : Type 0} (whom : ℕ) (k : A → M Serving (Unit {0})) (s s' : Serving) (r : Run Serving A)
    → ((s1 : Serving) (a : A) → r ≡ done a s1 → s1.replies ≡ s.replies)
    → ((a : A) → IsAnswer whom (k a))
    → and_then r k ≡ done tt s'
    → (p : Reply) × (s'.replies ≡ s.replies ++ p ∷ []) × (p.whom ≡ whom)
unfolding IsAnswer
answer_run whom k s s' (done a s1) quiet ans e =
    let (p, added, to) = ans a s1 s' e in (p, added ∙ rw (quiet s1 a refl), to)
answer_run whom k s s' (leave s1) quiet ans e = absurd (ground (arith, e))
answer_run whom k s s' panic quiet ans e = absurd (ground (arith, e))

then-IsAnswer :
    {A : Type 0} (whom : ℕ) (m : M Serving A) (k : A → M Serving (Unit {0}))
    → IsQuiet m
    → ((a : A) → IsAnswer whom (k a))
    → IsAnswer whom (m >>= k)
unfolding IsAnswer IsQuiet
then-IsAnswer whom m k quiet ans s s' e =
    answer_run whom k s s' (m s) (λ s1 a r. quiet s s1 a r) ans e

quiet_then :
    {A B : Type 0} (k : A → M Serving B) (s s' : Serving) (b : B) (r : Run Serving A)
    → ((s1 : Serving) (a : A) → r ≡ done a s1 → s1.replies ≡ s.replies)
    → ((a : A) → IsQuiet (k a))
    → and_then r k ≡ done b s'
    → s'.replies ≡ s.replies
unfolding IsQuiet
quiet_then k s s' b (done a s1) quiet ans e = ans a s1 s' b e ∙ quiet s1 a refl
quiet_then k s s' b (leave s1) quiet ans e = absurd (ground (arith, e))
quiet_then k s s' b panic quiet ans e = absurd (ground (arith, e))

on_ok-IsQuiet :
    {A B : Type 0} (k : A → M Serving (Ret B))
    → ((a : A) → IsQuiet (k a))
    → (r : Ret A) → IsQuiet (on_ok k r)
unfolding IsQuiet
on_ok-IsQuiet k quiet (ok a) s s' b e = quiet a s s' b e
on_ok-IsQuiet k quiet (err x) s s' b e = (let eq : s ≡ s' = cc in rw eq)

try-IsQuiet :
    {A B : Type 0} (m : M Serving (Ret A)) (k : A → M Serving (Ret B))
    → IsQuiet m
    → ((a : A) → IsQuiet (k a))
    → IsQuiet (try m k)
unfolding IsQuiet
try-IsQuiet m k q a s s' b e =
    quiet_then (on_ok k) s s' b (m s) (λ s1 x r. q s s1 x r) (on_ok-IsQuiet k a) e

ipc_send-IsAnswer :
    (whom : ℕ) (value : Ret ℕ) (page : Option Page) → IsAnswer whom (ipc_send whom value page)
unfolding IsAnswer ipc_send
ipc_send-IsAnswer whom value page s s' e = elim (Bool-cases (sendable page s)) [
  | inl y ↦
      (let go : ipc_send whom value page s
            ≡ done tt (record s {
              replies = s.replies ++ (record { whom = whom; value = value; page = page }) ∷ [];
            }) =
          ground (arith, y) in
        let both : done tt s'
            ≡ done tt (record s {
              replies = s.replies ++ (record { whom = whom; value = value; page = page }) ∷ [];
            }) =
          sym e ∙ go in
        let eq : s' ≡ record s {
          replies = s.replies ++ (record { whom = whom; value = value; page = page }) ∷ [];
        } =
          cc in
        (record { whom = whom; value = value; page = page }, rw eq refl, refl))
  | inr n ↦ absurd (ground (arith, n, e))
]

-- The same for what follows an error and a success.
ret-IsAnswer :
    {A : Type 0} (whom : ℕ) (k : A → M Serving (Unit {0})) (h : Error → M Serving (Unit {0}))
    → ((e : Error) → IsAnswer whom (h e))
    → ((a : A) → IsAnswer whom (k a))
    → (r : Ret A)
    → IsAnswer whom (elim r as (λ x. M Serving (Unit {0})) [ ok a ↦ k a | err e ↦ h e ])
ret-IsAnswer whom k h on_err on_a (ok a) = on_a a
ret-IsAnswer whom k h on_err on_a (err e) = on_err e

error-IsAnswer : (whom : ℕ) (e : Error) → IsAnswer whom (ipc_send whom (err e) none)
error-IsAnswer whom e = ipc_send-IsAnswer whom (err e) none

same_replies :
    {A : Type 0} (s s1 s' : Serving) (a b : A)
    → done a s1 ≡ done b s'
    → s1.replies ≡ s.replies
    → s'.replies ≡ s.replies
same_replies s s1 s' a b e same = (let eq : s' ≡ s1 = cc in rw eq same)

search-IsQuiet : (left i : ℕ) → IsQuiet (open_alloc_from left i)
unfolding IsQuiet open_alloc_from
search-IsQuiet zero i s s' a e = same_replies s s s' _ a e refl
search-IsQuiet (suc left) i s s' a e = elim (zero_one_more (s.refs i)) [
  | inl z ↦ elim (Bool-cases (s.fs.grants s.fs.asked)) [
    | inl g ↦ same_replies s _ s' _ a (sym (search_granted left i s z g) ∙ e) refl
    | inr g ↦ same_replies s _ s' _ a (sym (search_refused left i s z g) ∙ e) refl
  ]
  | inr (inl o) ↦ same_replies s _ s' _ a (sym (search_one left i s o) ∙ e) refl
  | inr (inr more) ↦ search-IsQuiet left (i + 1) s s' a (sym (search_on left i s more) ∙ e)
]

pure-IsQuiet : {A : Type 0} (a : A) → IsQuiet (λ s. done a s)
unfolding IsQuiet
pure-IsQuiet a s s' b e = same_replies s s s' a b e refl

open_alloc-IsQuiet : IsQuiet open_alloc
unfolding open_alloc
open_alloc-IsQuiet = search-IsQuiet 1024 0

open_lookup-IsQuiet : (fileid : ℕ) → IsQuiet (open_lookup fileid)
unfolding IsQuiet open_lookup
open_lookup-IsQuiet fileid s s' a e = ground (arith, e)

requested-IsQuiet : (fileid : ℕ) → IsQuiet (requested fileid)
unfolding IsQuiet requested open_lookup
requested-IsQuiet fileid =
    try-IsQuiet (open_lookup fileid) _ (open_lookup-IsQuiet fileid) λ i s s' a e. ground (arith, e)

send_ret-IsAnswer : (whom : ℕ) (r : Ret (Unit {0})) → IsAnswer whom (send_ret whom r)
send_ret-IsAnswer whom (ok u) = ipc_send-IsAnswer whom (ok 0) none
send_ret-IsAnswer whom (err e) = ipc_send-IsAnswer whom (err e) none

modify-IsQuiet :
    (f : Serving → Serving) → ((s : Serving) → (f s).replies ≡ s.replies) → IsQuiet (modify f)
unfolding IsQuiet
modify-IsQuiet f keeps s s' a e = same_replies s (f s) s' _ a e (keeps s)

opened_keeps : (i : ℕ) (f : Ptr) (mode : ℕ) (s : Serving) → (opened i f mode s).replies ≡ s.replies
opened_keeps i (b, o) mode s = refl

serve_file-IsAnswer :
    (whom : ℕ) (path : List ℕ) (mode i : ℕ) → IsAnswer whom (serve_file whom path mode i)
unfolding serve_file
serve_file-IsAnswer whom path mode i =
    then-IsAnswer whom (lift (open_or_create (request_path path) mode)) _
      (lift-IsQuiet (open_or_create (request_path path) mode))
      (ret-IsAnswer whom _ _ (error-IsAnswer whom) λ f.
        then-IsAnswer whom (modify (opened i f mode)) _
          (modify-IsQuiet (opened i f mode) (opened_keeps i f mode))
          λ _. ipc_send-IsAnswer whom (ok 0) (some (filefd i)))

choice-IsAnswer :
    (whom : ℕ) (m k : M Serving (Unit {0})) (b : Bool)
    → IsAnswer whom m
    → IsAnswer whom k
    → IsAnswer whom (λ s. if b then m s else k s)
unfolding IsAnswer
choice-IsAnswer whom m k true am ak s s' e = am s s' e
choice-IsAnswer whom m k false am ak s s' e = ak s s' e

get-IsAnswer :
    (whom : ℕ) (k : Serving → M Serving (Unit {0}))
    → ((s : Serving) → IsAnswer whom (k s))
    → IsAnswer whom (λ s. k s s)
unfolding IsAnswer
get-IsAnswer whom k a s s' e = a s s s' e

serve_open-IsAnswer :
    (whom : ℕ) (path : List ℕ) (mode : ℕ) → IsAnswer whom (serve_open whom path mode)
unfolding serve_open
serve_open-IsAnswer whom path mode = then-IsAnswer whom open_alloc _ open_alloc-IsQuiet (
    ret-IsAnswer whom _ _ (error-IsAnswer whom) λ i. get-IsAnswer whom _ λ s.
      choice-IsAnswer whom _ _ (leb (2 ^ 31) ((s.opentab i).o_fileid))
        (ipc_send-IsAnswer whom (ok ((s.opentab i).o_fileid)) none)
        (serve_file-IsAnswer whom path mode i))

serve_map-IsAnswer : (whom fileid offset : ℕ) → IsAnswer whom (serve_map whom fileid offset)
unfolding serve_map
serve_map-IsAnswer whom fileid offset =
    then-IsAnswer whom (requested fileid) _ (requested-IsQuiet fileid) (
      ret-IsAnswer whom _ _ (error-IsAnswer whom) λ f.
        then-IsAnswer whom (lift (map_and_read f offset)) _ (lift-IsQuiet (map_and_read f offset))
          λ x. ipc_send-IsAnswer whom x.0 x.1)

-- A request on an open file, answered by the value of a call of fs/fs.c.
file_call-IsAnswer :
    (whom fileid : ℕ) (call : Ptr → M Server (Ret (Unit {0})))
    → IsAnswer whom (try (requested fileid) (λ f. lift (call f)) >>= send_ret whom)
file_call-IsAnswer whom fileid call =
    then-IsAnswer whom (try (requested fileid) (λ f. lift (call f))) (send_ret whom)
      (try-IsQuiet (requested fileid) (λ f. lift (call f)) (requested-IsQuiet fileid)
        λ f. lift-IsQuiet (call f))
      (send_ret-IsAnswer whom)

serve_set_size-IsAnswer : (whom fileid size : ℕ) → IsAnswer whom (serve_set_size whom fileid size)
unfolding serve_set_size
serve_set_size-IsAnswer whom fileid size =
    file_call-IsAnswer whom fileid (λ f. file_set_size f size)

serve_dirty-IsAnswer : (whom fileid offset : ℕ) → IsAnswer whom (serve_dirty whom fileid offset)
unfolding serve_dirty
serve_dirty-IsAnswer whom fileid offset = file_call-IsAnswer whom fileid (λ f. file_dirty f offset)

serve_close-IsAnswer : (whom fileid : ℕ) → IsAnswer whom (serve_close whom fileid)
unfolding serve_close
serve_close-IsAnswer whom fileid =
    then-IsAnswer whom (try (open_lookup fileid) (λ _. pure (ok tt))) (send_ret whom)
      (try-IsQuiet (open_lookup fileid) (λ _. pure (ok tt)) (open_lookup-IsQuiet fileid)
        λ i. pure-IsQuiet (ok tt))
      (send_ret-IsAnswer whom)

serve_remove-IsAnswer : (whom : ℕ) (path : List ℕ) → IsAnswer whom (serve_remove whom path)
unfolding serve_remove
serve_remove-IsAnswer whom path =
    then-IsAnswer whom (lift (file_remove (request_path path))) (send_ret whom)
      (lift-IsQuiet (file_remove (request_path path))) (send_ret-IsAnswer whom)

serve_sync-IsAnswer : (whom : ℕ) → IsAnswer whom (serve_sync whom)
unfolding serve_sync
serve_sync-IsAnswer whom =
    then-IsAnswer whom (lift fs_sync) _ (lift-IsQuiet fs_sync)
      λ _. ipc_send-IsAnswer whom (ok 0) none

codes :
    (n : ℕ)
    → 1 ≤ n
    → n ≤ 7
    → (n ≡ 1) ⊎ ((n ≡ 2) ⊎ ((n ≡ 3) ⊎ ((n ≡ 4) ⊎ ((n ≡ 5) ⊎ ((n ≡ 6) ⊎ (n ≡ 7))))))
codes n lo hi = omega (arith, lo, hi)

-- A round of `serve` on a request of code 1 to 7 with an argument page, when it ends, has sent exactly
-- one answer, to the sender of the request.
pub serve_answers :
    (whom : ℕ) (r : Request) (s s' : Serving)
    → 1 ≤ r.req
    → r.req ≤ 7
    → serve whom (some r) s ≡ done tt s'
    → (p : Reply) × (s'.replies ≡ s.replies ++ p ∷ []) × (p.whom ≡ whom)
unfolding serve IsAnswer
serve_answers whom r s s' lo hi run = elim (codes (r.req) lo hi) [
  | inl e ↦ serve_open-IsAnswer whom (r.req_path) (r.req_omode) s s' (ground (arith, e, run))
  | inr (inl e) ↦
      serve_map-IsAnswer whom (r.req_fileid) (r.req_offset) s s' (ground (arith, e, run))
  | inr (inr (inl e)) ↦
      serve_set_size-IsAnswer whom (r.req_fileid) (r.req_size) s s' (ground (arith, e, run))
  | inr (inr (inr (inl e))) ↦ serve_close-IsAnswer whom (r.req_fileid) s s' (ground (arith, e, run))
  | inr (inr (inr (inr (inl e)))) ↦
      serve_dirty-IsAnswer whom (r.req_fileid) (r.req_offset) s s' (ground (arith, e, run))
  | inr (inr (inr (inr (inr (inl e))))) ↦
      serve_remove-IsAnswer whom (r.req_path) s s' (ground (arith, e, run))
  | inr (inr (inr (inr (inr (inr e))))) ↦ serve_sync-IsAnswer whom s s' (ground (arith, e, run))
]
