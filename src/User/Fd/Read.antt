-- ===== src/User/Fd/Read.antt =====
-- `fd_alloc` and `readn` of user/fd.c.
use demo2s.Base.{
  equal_or_later, ℕ, zero, suc, ◌+◌, ◌-◌, ◌≤◌, ◌<◌, ◌≡◌, ◌≢◌, inl, inr, refl, sym, ◌∙◌, true, false,
  Option, none, some, List, [], ◌++◌, Run, M, done, leave, panic, pure, and_then, try, on_ok, Ret,
  ok, err, leb, ◌==◌, if◌then◌else◌, arith, Bool-cases, length, length-append,
}
use demo2s.User.Fd.{Fds, Dev, maxfd, fd_alloc_from, fd_alloc, read, readn_from, readn}

alloc_here :
    (left i : ℕ) (s : Fds) → s.fd_dir ≡ true → s.slot i ≡ none → fd_alloc_from (suc left) i s ≡ ok i
unfolding fd_alloc_from
alloc_here left i s dir h = rw (fd_alloc_from, dir, h) refl

alloc_on :
    (left i p : ℕ) (s : Fds)
    → s.fd_dir ≡ true
    → s.slot i ≡ some p
    → fd_alloc_from (suc left) i s ≡ fd_alloc_from left (i + 1) s
unfolding fd_alloc_from
alloc_on left i p s dir h = ground (arith, dir, h)

not_none : (o : Option ℕ) (p : ℕ) → o ≡ some p → o ≢ none
not_none o p e f = absurd (ground (arith, e, f))

alloc_from_lem :
    (left i k : ℕ) (s : Fds)
    → s.fd_dir ≡ true
    → fd_alloc_from left i s ≡ ok k
    → (i ≤ k) × (k < i + left) × (s.slot k ≡ none) × ((j : ℕ) → i ≤ j → j < k → s.slot j ≢ none)
unfolding fd_alloc_from
alloc_from_lem zero i k s dir e = absurd (ground (arith, e))
alloc_from_lem (suc left) i k s dir e = go (s.slot i) refl (alloc_from_lem left (i + 1) k s dir)
  where
    go :
        (o : Option ℕ)
        → s.slot i ≡ o
        → (fd_alloc_from left (i + 1) s ≡ ok k
            → (i + 1 ≤ k)
              × (k < i + 1 + left)
              × (s.slot k ≡ none)
              × ((j : ℕ) → i + 1 ≤ j → j < k → s.slot j ≢ none))
        → (i ≤ k)
          × (k < i + suc left)
          × (s.slot k ≡ none)
          × ((j : ℕ) → i ≤ j → j < k → s.slot j ≢ none)
    go none h rest =
        let both : ok i ≡ ok k = sym (alloc_here left i s dir h) ∙ e in
        let eq : i ≡ k = cc in
        (
          omega (arith, eq),
          omega (arith, eq),
          rw⁻¹ eq h,
          λ j ij jk. absurd (omega (arith, eq, ij, jk)),
        )
    go (some p) h rest =
        let (lo, hi, free, busy) = rest (sym (alloc_on left i p s dir h) ∙ e) in
        (
          omega (arith, lo),
          omega (arith, hi),
          free,
          λ j ij jk. elim (equal_or_later j i ij) [
            | inl eq ↦ rw eq (not_none (s.slot i) p h)
            | inr lt ↦ busy j lt jk
          ],
        )

-- Runs that differ in what follows a success.
tail_eq :
    {A B : Type 0} (r : Run Fds (Ret A)) (f g : A → M Fds (Ret B))
    → ((a : A) (s : Fds) → f a s ≡ g a s)
    → and_then r (on_ok f) ≡ and_then r (on_ok g)
tail_eq (done (ok a) s) f g h = h a s
tail_eq (done (err e) s) f g h = refl
tail_eq (leave s) f g h = refl
tail_eq panic f g h = refl

readn_full :
    (devtab : List Dev) (left fdnum n : ℕ) (got : List ℕ) (s : Fds)
    → n ≤ length got
    → readn_from devtab left fdnum n got s ≡ done (ok got) s
unfolding readn_from
readn_full devtab zero fdnum n got s le = refl
readn_full devtab (suc left) fdnum n got s le = ground (arith, le)

abbrev after_read : List Dev → ℕ → ℕ → ℕ → List ℕ → List ℕ → M Fds (Ret (List ℕ))
after_read devtab left fdnum n got bs =
    if length bs == 0 then pure (ok got) else readn_from devtab left fdnum n (got ++ bs)

readn_step :
    (devtab : List Dev) (left fdnum n : ℕ) (got : List ℕ) (s : Fds)
    → leb n (length got) ≡ false
    → readn_from devtab (suc left) fdnum n got s
      ≡ try (read devtab fdnum (n - length got)) (after_read devtab left fdnum n got) s
unfolding readn_from
readn_step devtab left fdnum n got s lt = rw (readn_from, lt) refl

nonzero : (n : ℕ) → (n == 0) ≡ false → 1 ≤ n
nonzero n h = ground (arith, h)

readn_more :
    (devtab : List Dev) (left extra fdnum n : ℕ) (got : List ℕ) (s : Fds)
    → n ≤ length got + left
    → readn_from devtab (left + extra) fdnum n got s ≡ readn_from devtab left fdnum n got s
unfolding readn_from
readn_more devtab zero extra fdnum n got s le =
    readn_full devtab (0 + extra) fdnum n got s (omega (arith, le))
readn_more devtab (suc left) extra fdnum n got s le = elim (Bool-cases (leb n (length got))) [
  | inl full ↦
      (let enough : n ≤ length got = ground (arith, full) in
        readn_full devtab (suc left + extra) fdnum n got s enough
        ∙ sym (readn_full devtab (suc left) fdnum n got s enough))
  | inr lt ↦
      (let split : suc left + extra ≡ suc (left + extra) = omega arith in
        rw split (
          readn_step devtab (left + extra) fdnum n got s lt
          ∙ tail_eq (read devtab fdnum (n - length got) s)
              (after_read devtab (left + extra) fdnum n got) (after_read devtab left fdnum n got)
              (λ bs s2. go bs s2 (λ b. readn_more devtab left extra fdnum n (got ++ bs) s2 b))
          ∙ sym (readn_step devtab left fdnum n got s lt)))
]
  where
    go :
        (bs : List ℕ) (s2 : Fds)
        → (n ≤ length (got ++ bs) + left
            → readn_from devtab (left + extra) fdnum n (got ++ bs) s2
              ≡ readn_from devtab left fdnum n (got ++ bs) s2)
        → after_read devtab (left + extra) fdnum n got bs s2
          ≡ after_read devtab left fdnum n got bs s2
    go bs s2 rest = elim (Bool-cases (length bs == 0)) [
      | inl z ↦ rw z refl
      | inr nz ↦ rw nz (rest (omega (arith, le, length-append {0} got bs, nonzero (length bs) nz)))
    ]

-- `readn` ends after at most n reads: allowing more changes nothing, whatever the devices do.
pub readn_lem :
    (devtab : List Dev) (fdnum n extra : ℕ) (s : Fds)
    → readn_from devtab (n + extra) fdnum n [] s ≡ readn devtab fdnum n s
unfolding readn
readn_lem devtab fdnum n extra s = readn_more devtab n extra fdnum n [] s (omega arith)

-- When some page of the descriptor table is mapped, `fd_alloc` changes nothing and gives the lowest of
-- the 32 slots that has no page.
pub fd_alloc_lem :
    (i : ℕ) (s s' : Fds)
    → s.fd_dir ≡ true
    → fd_alloc s ≡ done (ok i) s'
    → (s' ≡ s) × (i < 32) × (s.slot i ≡ none) × ((j : ℕ) → j < i → s.slot j ≢ none)
unfolding fd_alloc
fd_alloc_lem i s s' dir e =
    let found : fd_alloc_from maxfd 0 s ≡ ok i = cc in
    let same : s' ≡ s = cc in
    let (lo, hi, free, busy) = alloc_from_lem maxfd 0 i s dir found in
    (same, hi, free, λ j lt. busy j (omega arith) lt)
