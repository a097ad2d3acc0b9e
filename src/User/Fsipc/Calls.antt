-- ===== src/User/Fsipc/Calls.antt =====
-- What the calls of user/fsipc.c return.
use demo2s.Base.{
  ℕ, suc, ◌≤◌, ◌<◌, ◌≡◌, ◌⊎◌, inl, inr, zero, refl, ap, ◌∙◌, true, false, none, some, List, [], ◌∷◌,
  ◌++◌, leb, if_true, if_false, length, done, and_then, err, inval, bad_path, arith,
}
use demo2s.Fs.Serve.{
  Serving, Request, Reply, serve, serve_map, open_lookup, requested, serve_set_size, serve_close,
  serve_dirty, ipc_send, request_path, take,
}
use demo2s.Fs.Serve.Replies.{serve_answers}
use demo2s.User.Fsipc.{
  maxpathlen, last, received, map_answer, fsipc_map, fsipc, request, fsipc_open, fsipc_set_size,
  fsipc_close, fsipc_dirty, fsipc_remove,
}

last_append : (ps : List Reply) (p : Reply) → last (ps ++ p ∷ []) ≡ some p
last_append [] p = refl
last_append (q ∷ []) p = refl
last_append (q ∷ r ∷ ps) p = last_append (r ∷ ps) p

fsipc_run :
    (me : ℕ) (r : Request) (s s' : Serving) (p : Reply)
    → serve me (some r) s ≡ done tt s'
    → s'.replies ≡ s.replies ++ p ∷ []
    → fsipc me r s ≡ done (p.value) s'
unfolding fsipc
fsipc_run me r s s' p run e =
    ap (λ x. and_then x (λ _ s'. received (last s'.replies) s')) run
    ∙ ap (λ x. received (last x) s') e
    ∙ ap (λ x. received x s') (last_append s.replies p)

-- Where the server ends its round on a request, the client returns, with the value of the one answer that
-- the round sends, which goes to this client.
pub fsipc_lem :
    (me : ℕ) (r : Request) (s s' : Serving)
    → 1 ≤ r.req
    → r.req ≤ 7
    → serve me (some r) s ≡ done tt s'
    → (p : Reply) × (fsipc me r s ≡ done (p.value) s')
      × (s'.replies ≡ s.replies ++ p ∷ [])
      × (p.whom ≡ me)
fsipc_lem me r s s' lo hi run =
    let (p, e, whom) = serve_answers me r s s' lo hi run in
    (p, fsipc_run me r s s' p run e, e, whom)

-- The answer to a request for a file that is not open
abbrev pub with_refusal : ℕ → Serving → Serving
with_refusal me s = record s {
  replies = s.replies ++ (record { whom = me; value = err inval; page = none }) ∷ [];
}

module _ (me id x : ℕ) (s : Serving) (e : open_lookup id s ≡ done (err inval) s) where
  requested_refused : requested id s ≡ done (err inval) s
  unfolding requested
  requested_refused = rw (requested, e) refl

  close_refused : serve me (some (request 4 [] 0 id 0 0)) s ≡ done tt (with_refusal me s)
  unfolding serve serve_close ipc_send
  close_refused = rw (serve, serve_close, e) refl

  map_refused : serve me (some (request 2 [] 0 id x 0)) s ≡ done tt (with_refusal me s)
  unfolding serve serve_map ipc_send
  map_refused = let r = requested_refused in rw (serve, serve_map, r) refl

  size_refused : serve me (some (request 3 [] 0 id 0 x)) s ≡ done tt (with_refusal me s)
  unfolding serve serve_set_size ipc_send
  size_refused = let r = requested_refused in rw (serve, serve_set_size, r) refl

  dirty_refused : serve me (some (request 5 [] 0 id x 0)) s ≡ done tt (with_refusal me s)
  unfolding serve serve_dirty ipc_send
  dirty_refused = let r = requested_refused in rw (serve, serve_dirty, r) refl

map_run :
    (me id x : ℕ) (s s' : Serving) (p : Reply)
    → serve me (some (request 2 [] 0 id x 0)) s ≡ done tt s'
    → s'.replies ≡ s.replies ++ p ∷ []
    → fsipc_map me id x s ≡ map_answer (some p) s'
unfolding fsipc_map
map_run me id x s s' p run e =
    ap (λ y. and_then y (λ _ s'. map_answer (last s'.replies) s')) run
    ∙ ap (λ y. map_answer (last y) s') e
    ∙ ap (λ y. map_answer y s') (last_append s.replies p)

-- A file id that the server's table does not find makes every request that names a file fail with inval at
-- the client; nothing changes in the server but that it has answered.
pub fsipc-open_lookup :
    (me id x : ℕ) (s : Serving)
    → open_lookup id s ≡ done (err inval) s
    → (fsipc_map me id x s ≡ done (err inval) (with_refusal me s))
      × (fsipc_set_size me id x s ≡ done (err inval) (with_refusal me s))
      × (fsipc_close me id s ≡ done (err inval) (with_refusal me s))
      × (fsipc_dirty me id x s ≡ done (err inval) (with_refusal me s))
unfolding fsipc_set_size fsipc_close fsipc_dirty
fsipc-open_lookup me id x s e =
    let p : Reply = record { whom = me; value = err inval; page = none } in
    (
      map_run me id x s (with_refusal me s) p (map_refused me id x s e) refl,
      fsipc_run me (request 3 [] 0 id 0 x) s (with_refusal me s) p (size_refused me id x s e) refl,
      fsipc_run me (request 4 [] 0 id 0 0) s (with_refusal me s) p (close_refused me id x s e) refl,
      fsipc_run me (request 5 [] 0 id x 0) s (with_refusal me s) p (dirty_refused me id x s e) refl,
    )

take_whole : (n : ℕ) (cs : List ℕ) → length cs ≤ n → take n cs ≡ cs
take_whole zero [] le = refl
take_whole zero (c ∷ cs) le = absurd (omega (arith, le))
take_whole (suc n) [] le = refl
take_whole (suc n) (c ∷ cs) le = rw (take_whole n cs (omega (arith, le))) refl

-- `fsipc_open` and `fsipc_remove` fail with bad_path for a path of 1024 characters or more, without a request;
-- any other path is sent, and the server takes it whole.
pub fsipc_open-request_path :
    (me omode : ℕ) (path : List ℕ) (s : Serving)
    → ((maxpathlen ≤ length path)
        × (fsipc_open me path omode s ≡ done (err bad_path) s)
        × (fsipc_remove me path s ≡ done (err bad_path) s))
      ⊎ ((request_path path ≡ path)
          × (fsipc_open me path omode s ≡ fsipc me (request 1 path omode 0 0 0) s)
          × (fsipc_remove me path s ≡ fsipc me (request 6 path 0 0 0 0) s))
unfolding fsipc_open fsipc_remove
fsipc_open-request_path me omode path s = elim (long_or_short (length path)) [
  | inl long ↦
      let t : leb maxpathlen (length path) ≡ true = ground (arith, long) in
      inl (
        long,
        if_true (leb maxpathlen (length path)) (done (err bad_path) s) _ t,
        if_true (leb maxpathlen (length path)) (done (err bad_path) s) _ t,
      )
  | inr short ↦
      let f : leb maxpathlen (length path) ≡ false = ground (arith, short) in
      inr (
        take_whole 1023 path (omega (arith, short)),
        if_false (leb maxpathlen (length path)) (done (err bad_path) s) _ f,
        if_false (leb maxpathlen (length path)) (done (err bad_path) s) _ f,
      )
]
  where
    long_or_short : (n : ℕ) → (maxpathlen ≤ n) ⊎ (n < maxpathlen)
    long_or_short n = omega arith
