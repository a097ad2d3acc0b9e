-- ===== src/User/File/Grow.antt =====
-- `ftruncate` of user/file.c when it makes a file larger and its calls succeed.
use demo2s.Base.{
  ℕ, zero, suc, ◌+◌, ◌-◌, ◌*◌, ◌/◌, ◌≤◌, ◌<◌, ◌≡◌, ◌⊎◌, inl, refl, ap, ◌∙◌, true, Option, none,
  ltb_of_le, update_self, update_other, ok, Error, done, arith,
}
use demo2s.Kern.Mmu.{by2pg}
use demo2s.Fs.Serve.{devfile_id}
use demo2s.User.File.{
  maxfilesize, round_up, Client, set_size, map_page, map_from, unmap_from, ftruncate,
}

abbrev pub granted : ℕ → Option Error
granted k = none

-- n pages from the offset i on are mapped, and memory outside the file's region is as it was.
pub record Grown (file n i : ℕ) (s s' : Client) : Type 0 where
  pub there : (j : ℕ) → j < n → s'.mapped (i + by2pg * j) ≡ true
  pub others : (x : ℕ) → (x < i) ⊎ (i + by2pg * n ≤ x) → s'.mapped x ≡ s.mapped x
  pub same_size : s'.f_size ≡ s.f_size
  pub same_server : s'.o_size ≡ s.o_size
  pub outside : (a : ℕ) → (a < file + i) ⊎ (file + i + by2pg * n ≤ a) → s'.mem a ≡ s.mem a

Grown-first :
    (content : ℕ → ℕ) (file n i c : ℕ) (s s' : Client)
    → Grown file n (i + by2pg) (map_page content file i (record s { calls = c })) s'
    → Grown file (suc n) i s s'
Grown-first content file n i c s s' g = record {
  there = there;
  others = λ x out.
      g.others x (omega (arith, out)) ∙ update_other s.mapped i x true (λ z. omega (arith, z, out));
  same_size = g.same_size;
  same_server = g.same_server;
  outside = λ a out. g.outside a (omega (arith, out)) ∙ ground (arith, out);
}
  where
    there : (j : ℕ) → j < suc n → s'.mapped (i + by2pg * j) ≡ true
    there zero lt =
        let z : i + by2pg * 0 ≡ i = omega arith in
        ap s'.mapped z ∙ g.others i (inl (omega arith)) ∙ update_self s.mapped i true
    there (suc j) lt =
        let z : i + by2pg * suc j ≡ i + by2pg + by2pg * j = omega arith in
        ap s'.mapped z ∙ g.there j (omega (arith, lt))

map_from-Grown :
    (content : ℕ → ℕ) (file old n i : ℕ) (s : Client)
    → (s' : Client) × (map_from granted content file old n i s ≡ done (ok tt) s')
      × Grown file n i s s'
unfolding map_from
map_from-Grown content file old zero i s = (
  s,
  refl,
  record {
    there = λ j lt. absurd (omega (arith, lt));
    others = λ x out. refl;
    same_size = refl;
    same_server = refl;
    outside = λ a out. refl;
  },
)
map_from-Grown content file old (suc n) i s =
    let s1 = map_page content file i (record s { calls = s.calls + 1 }) in
    let (s', run, g) = map_from-Grown content file old n (i + by2pg) s1 in
    (s', run, Grown-first content file n i (s.calls + 1) s s' g)

none_unmapped : (n i : ℕ) (s : Client) → n ≡ 0 → unmap_from granted n i s ≡ done (ok tt) s
unfolding unmap_from
none_unmapped n i s z = rw z refl

after_size :
    (content : ℕ → ℕ) (file size : ℕ) (s s' : Client)
    → size ≤ maxfilesize
    → map_from granted content file s.f_size
        ((round_up size - round_up s.f_size) / by2pg)
        (round_up s.f_size)
        (set_size size (record s { calls = s.calls + 1 }))
      ≡ done (ok tt) s'
    → (round_up s.f_size - round_up size) / by2pg ≡ 0
    → ftruncate granted content file (ok devfile_id) size s ≡ done (ok tt) s'
unfolding ftruncate
after_size content file size s s' le e z =
    let small = ltb_of_le maxfilesize size le in
    let u = none_unmapped ((round_up s.f_size - round_up size) / by2pg) (round_up size) s' z in
    rw (ftruncate, small, e, u) refl

-- The server gets the new size, the file's new pages are mapped, and the descriptor keeps the old size.
pub ftruncate_grows :
    (content : ℕ → ℕ) (file size : ℕ) (s : Client)
    → s.f_size ≤ size
    → size ≤ maxfilesize
    → (s' : Client) × (ftruncate granted content file (ok devfile_id) size s ≡ done (ok tt) s')
      × Grown file
          ((round_up size - round_up s.f_size) / by2pg)
          (round_up s.f_size)
          (set_size size (record s { calls = s.calls + 1 }))
          s'
ftruncate_grows content file size s more le =
    let (s', run, g) =
      map_from-Grown content file s.f_size ((round_up size - round_up s.f_size) / by2pg)
        (round_up s.f_size) (set_size size (record s { calls = s.calls + 1 })) in
    (s', after_size content file size s s' le run (omega (arith, more, le)), g)
