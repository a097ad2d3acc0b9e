-- ===== src/User/Fd/Dup.antt =====
-- `dup` of user/fd.c: the new descriptor is the old one.
use demo2s.Base.{
  equal_or_later, ℕ, zero, suc, ◌+◌, ◌≤◌, ◌<◌, ◌≡◌, ◌≢◌, inl, inr, refl, sym, ◌∙◌, true, Option,
  none, some, List, done, Ret, ok, if◌then◌else◌, update, update_self, update_other, arith,
}
use demo2s.User.Fd.{
  Fds, Dev, maxfd, data_pages, fd_lookup, map_data, map_fd, dup_data, copy_slot, dup, close,
}

-- The page of a slot's data after the copy.
abbrev pub or_kept : Option (ℕ × ℕ) → Option (ℕ × ℕ) → Option (ℕ × ℕ)
or_kept none kept = kept
or_kept (some pp) kept = some pp

-- What the loop over the pages j, ..., j + left - 1 of the data does.
record IsCopied (old new left j : ℕ) (s s' : Fds) : Type 0 where
  run : dup_data old new left j s ≡ done (ok tt) s'
  slots : s'.slot ≡ s.slot
  same_fds : s'.fds ≡ s.fds
  same_dir : s'.fd_dir ≡ s.fd_dir
  same_grants : s'.grants ≡ s.grants
  copied :
      (i : ℕ)
      → j ≤ i
      → i < j + left
      → s'.data_page new i ≡ or_kept (s.data_page old i) (s.data_page new i)
  before : (i : ℕ) → i < j → s'.data_page new i ≡ s.data_page new i
  others : (q : ℕ) → new ≢ q → s'.data_page q ≡ s.data_page q

abbrev mapped : ℕ → ℕ → ℕ × ℕ → Fds → Fds
mapped i j pp s = record s {
  data_page = update s.data_page i (update (s.data_page i) j (some pp));
  data_dir = update s.data_dir i true;
  asked = (if s.data_dir i then s.asked else s.asked + 1);
}

map_granted :
    (i j : ℕ) (pp : ℕ × ℕ) (s : Fds)
    → ((n : ℕ) → s.grants n ≡ true)
    → map_data i j pp s ≡ done (ok tt) (mapped i j pp s)
unfolding map_data
map_granted i j pp s g = ground (arith, g s.asked)

step_none :
    (old new left j : ℕ) (s : Fds)
    → s.data_page old j ≡ none
    → dup_data old new (suc left) j s ≡ dup_data old new left (j + 1) s
unfolding dup_data
step_none old new left j s e = rw (dup_data, e) refl

step_some :
    (old new left j : ℕ) (pp : ℕ × ℕ) (s : Fds)
    → s.data_page old j ≡ some pp
    → ((n : ℕ) → s.grants n ≡ true)
    → dup_data old new (suc left) j s ≡ dup_data old new left (j + 1) (mapped new j pp s)
unfolding dup_data
step_some old new left j pp s e g = rw (dup_data, e, map_granted new j pp s g) refl

mapped_here : (i j : ℕ) (pp : ℕ × ℕ) (s : Fds) → (mapped i j pp s).data_page i j ≡ some pp
mapped_here i j pp s = ground arith

mapped_else :
    (i j k : ℕ) (pp : ℕ × ℕ) (s : Fds) → j ≢ k → (mapped i j pp s).data_page i k ≡ s.data_page i k
mapped_else i j k pp s ne = ground (arith, ne)

mapped_other :
    (i j q : ℕ) (pp : ℕ × ℕ) (s : Fds) → i ≢ q → (mapped i j pp s).data_page q ≡ s.data_page q
mapped_other i j q pp s ne = update_other s.data_page i q (update (s.data_page i) j (some pp)) ne

page_at : {f g : ℕ → Option (ℕ × ℕ)} (i : ℕ) → f ≡ g → f i ≡ g i
page_at i e = rw e

or_kept_eq : {a b c d : Option (ℕ × ℕ)} → a ≡ b → c ≡ d → or_kept a c ≡ or_kept b d
or_kept_eq e f = rw (e, f) refl

step_none-IsCopied :
    (old new left j : ℕ) (s s' : Fds)
    → s.data_page old j ≡ none
    → IsCopied old new left (j + 1) s s'
    → IsCopied old new (suc left) j s s'
step_none-IsCopied old new left j s s' e r = record {
  run = step_none old new left j s e ∙ r.run;
  slots = r.slots;
  same_fds = r.same_fds;
  same_dir = r.same_dir;
  same_grants = r.same_grants;
  copied = λ i lo hi. elim (equal_or_later i j lo) [
    | inl eq ↦ rw eq (rw e (r.before j (omega arith)))
    | inr lt ↦ r.copied i lt (omega (arith, hi))
  ];
  before = λ i lt. r.before i (omega (arith, lt));
  others = r.others;
}

step_some-IsCopied :
    (old new left j : ℕ) (pp : ℕ × ℕ) (s s' : Fds)
    → old ≢ new
    → ((n : ℕ) → s.grants n ≡ true)
    → s.data_page old j ≡ some pp
    → IsCopied old new left (j + 1) (mapped new j pp s) s'
    → IsCopied old new (suc left) j s s'
step_some-IsCopied old new left j pp s s' ne g e r = record {
  run = step_some old new left j pp s e g ∙ r.run;
  slots = r.slots;
  same_fds = r.same_fds;
  same_dir = r.same_dir;
  same_grants = r.same_grants;
  copied = λ i lo hi. elim (equal_or_later i j lo) [
    | inl eq ↦ rw eq (rw e (r.before j (omega arith) ∙ mapped_here new j pp s))
    | inr lt ↦
        (r.copied i lt (omega (arith, hi))
          ∙ or_kept_eq (page_at i (mapped_other new j old pp s (λ h. ne (sym h))))
              (mapped_else new j i pp s (λ h. omega (arith, h, lt))))
  ];
  before =
      λ i lt. r.before i (omega (arith, lt)) ∙ mapped_else new j i pp s (λ h. omega (arith, h, lt));
  others = λ q n. r.others q n ∙ mapped_other new j q pp s n;
}

loop_lem :
    (left j old new : ℕ) (s : Fds)
    → old ≢ new
    → ((n : ℕ) → s.grants n ≡ true)
    → (s' : Fds) × IsCopied old new left j s s'
unfolding dup_data
loop_lem zero j old new s ne g = (
  s,
  record {
    run = refl;
    slots = refl;
    same_fds = refl;
    same_dir = refl;
    same_grants = refl;
    copied = λ i lo hi. absurd (omega (arith, lo, hi));
    before = λ i lt. refl;
    others = λ q n. refl;
  },
)
loop_lem (suc left) j old new s ne g =
    go (s.data_page old j) refl (loop_lem left (j + 1) old new s ne g)
      (λ pp. loop_lem left (j + 1) old new (mapped new j pp s) ne g)
  where
    go :
        (o : Option (ℕ × ℕ))
        → s.data_page old j ≡ o
        → (s' : Fds) × IsCopied old new left (j + 1) s s'
        → ((pp : ℕ × ℕ) → (s' : Fds) × IsCopied old new left (j + 1) (mapped new j pp s) s')
        → (s' : Fds) × IsCopied old new (suc left) j s s'
    go none e (s', r) more = (s', step_none-IsCopied old new left j s s' e r)
    go (some pp) e r more =
        let (s', r') = more pp in (s', step_some-IsCopied old new left j pp s s' ne g e r')

-- The state that `dup` ends in, after the loop.
abbrev pub dupped : ℕ → ℕ → Fds → Fds
dupped new p s = record s { slot = update s.slot new (some p) }

map_fd_run :
    (new p : ℕ) (o : Option ℕ) (s : Fds)
    → o ≡ some p
    → map_fd new o s ≡ done (ok tt) (dupped new p s)
unfolding map_fd
map_fd_run new p o s e = rw e refl

copy_run :
    (old new p : ℕ) (s s2 : Fds)
    → s.data_dir old ≡ true
    → dup_data old new data_pages 0 s ≡ done (ok tt) s2
    → s2.slot old ≡ some p
    → copy_slot old new s ≡ done (ok tt) (dupped new p s2)
unfolding copy_slot
copy_run old new p s s2 dir run old_there =
    rw (dir, run, map_fd_run new p (s2.slot old) s2 old_there) refl

dup_run :
    (devtab : List Dev) (old new p : ℕ) (s s1 s' : Fds) (r : Ret ℕ)
    → fd_lookup old s ≡ done (ok p) s
    → close devtab new s ≡ done r s1
    → copy_slot old new s1 ≡ done (ok tt) s'
    → dup devtab old new s ≡ done (ok new) s'
unfolding dup
dup_run devtab old new p s s1 s' r l c k = rw (l, c, k) refl

lookup_run :
    (fdnum p : ℕ) (s : Fds)
    → fdnum < maxfd
    → s.fd_dir ≡ true
    → s.slot fdnum ≡ some p
    → fd_lookup fdnum s ≡ done (ok p) s
unfolding fd_lookup
lookup_run fdnum p s lt dir e = ground (arith, lt, dir, e)

slot_at : {f g : ℕ → Option ℕ} (i : ℕ) → f ≡ g → f i ≡ g i
slot_at i e = rw e

-- `dup` of an open descriptor onto another one, below MAXFD and closed first in any way that leaves the old
-- one, when the old one has a page table for its data and the kernel grants one, succeeds: both descriptors then
-- are the same page, and so share their offset, and each page of data of the old one is mapped in the
-- new one.
pub dup_lem :
    (devtab : List Dev) (old new p : ℕ) (s s1 : Fds) (r : Ret ℕ)
    → fd_lookup old s ≡ done (ok p) s
    → close devtab new s ≡ done r s1
    → s1.slot old ≡ some p
    → s1.fd_dir ≡ true
    → s1.data_dir old ≡ true
    → ((n : ℕ) → s1.grants n ≡ true)
    → old ≢ new
    → old < 32
    → new < 32
    → (s' : Fds) × (dup devtab old new s ≡ done (ok new) s')
      × (fd_lookup new s' ≡ done (ok p) s')
      × (fd_lookup old s' ≡ done (ok p) s')
      × ((i : ℕ)
          → i < 1024
          → s'.data_page new i ≡ or_kept (s1.data_page old i) (s1.data_page new i))
      × (s'.fds ≡ s1.fds)
dup_lem devtab old new p s s1 r found closed there dir data_there granted ne lo ln =
    let (s2, c) = loop_lem 1024 0 old new s1 ne granted in
    let old_there : s2.slot old ≡ some p = slot_at old c.slots ∙ there in
    let dir2 : s2.fd_dir ≡ true = c.same_dir ∙ dir in
    (
      dupped new p s2,
      dup_run devtab old new p s s1 (dupped new p s2) r found closed
          (copy_run old new p s1 s2 data_there c.run old_there),
      lookup_run new p (dupped new p s2) ln dir2 (update_self s2.slot new (some p)),
      lookup_run old p (dupped new p s2) lo dir2
          (update_other s2.slot new old (some p) (λ h. ne (sym h)) ∙ old_there),
      (λ i lt. c.copied i (omega arith) (omega (arith, lt))),
      c.same_fds,
    )
