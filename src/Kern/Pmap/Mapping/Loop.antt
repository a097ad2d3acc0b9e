-- ===== src/Kern/Pmap/Mapping/Loop.antt =====
-- The loop of `boot_map_segment` of kern/pmap.c.
use demo2s.Base.{
  ℕ, zero, suc, ◌+◌, ◌*◌, ◌/◌, ◌%◌, ◌^◌, ◌≤◌, ◌<◌, ◌≡◌, ◌⊎◌, refl, ap, sym, subst, ◌∙◌, true, some,
  done, u32, bit_or, arith,
}
use demo2s.Kern.Mmu.{by2pg, pdx, ptx, pte_addr, pte_p}
use demo2s.Kern.Pmap.Mapping.{Boot, store, boot_pgdir_walk, map_pages, boot_map_segment}
use demo2s.Kern.Pmap.Mapping.Memory.{next_page}
use demo2s.Kern.Pmap.Mapping.Tables.{IsTable, IsBoot}
use demo2s.Kern.Pmap.Mapping.Segment.{entry_of, Enough, Turned, turn}

abbrev pub page_word : ℕ → ℕ → ℕ
page_word pa perm = bit_or (bit_or (pte_addr pa) perm) pte_p

-- n pages from `va` on are mapped to those from `pa` on, all other entries are as they were, and no page
-- from l on was used for a table; the two arrays are where they were.
pub record Laid (pgdir l n va pa perm : ℕ) (s s' : Boot) : Type 0 where
  pub boot : IsBoot pgdir s'
  pub bounded : next_page s' ≤ l
  pub same_maxpa : s'.maxpa ≡ s.maxpa
  pub same_arrays : (s'.pages ≡ s.pages) × (s'.envs ≡ s.envs)
  pub grown : next_page s ≤ next_page s'
  pub laid :
      (j : ℕ) → j < n → entry_of pgdir s' (va + by2pg * j) ≡ page_word (u32 (pa + by2pg * j)) perm
  pub others :
      (x : ℕ)
      → x < 2 ^ 32
      → IsTable (pdx x)
      → (x < va) ⊎ (va + by2pg * n ≤ x)
      → entry_of pgdir s' x ≡ entry_of pgdir s x

abbrev pub Tabled : ℕ → ℕ → Type 0
Tabled n va = (j : ℕ) → j < n → IsTable (pdx (va + by2pg * j))

turn_run :
    (end pgdir n va pa perm t : ℕ) (s s1 : Boot)
    → boot_pgdir_walk end pgdir va true s ≡ done (some t) s1
    → map_pages end pgdir (suc n) va pa perm s
      ≡ map_pages end pgdir n
          (u32 (va + by2pg))
          (u32 (pa + by2pg))
          perm
          (store t (ptx va) (page_word pa perm) s1)
unfolding map_pages
turn_run end pgdir n va pa perm t s s1 e = rw (map_pages, e) refl

Laid-nothing :
    (pgdir l va pa perm : ℕ) (s : Boot)
    → IsBoot pgdir s
    → next_page s ≤ l
    → Laid pgdir l 0 va pa perm s s
Laid-nothing pgdir l va pa perm s b le = record {
  boot = b;
  bounded = le;
  same_maxpa = refl;
  same_arrays = (refl, refl);
  grown = omega arith;
  laid = λ j lt. absurd (omega (arith, lt));
  others = λ x lt dx out. refl;
}

-- A page, and then the others
Laid-first :
    (pgdir l n va pa perm : ℕ) (s s2 s' : Boot)
    → va % by2pg ≡ 0
    → va + by2pg * suc n ≤ 2 ^ 32
    → pa < 2 ^ 32
    → Tabled (suc n) va
    → Turned pgdir l n va (page_word pa perm) s s2
    → Laid pgdir l n (u32 (va + by2pg)) (u32 (pa + by2pg)) perm s2 s'
    → Laid pgdir l (suc n) va pa perm s s'
Laid-first pgdir l n va pa perm s s2 s' al fit lt tabled h r = record {
  boot = r.boot;
  bounded = r.bounded;
  same_maxpa = r.same_maxpa ∙ h.same_maxpa;
  same_arrays = (r.same_arrays.0 ∙ h.same_arrays.0, r.same_arrays.1 ∙ h.same_arrays.1);
  grown = omega (arith, r.grown, h.grown);
  laid = laid;
  others = λ x lx dx out.
      r.others x lx dx (omega (arith, out, fit)) ∙ h.others x dx (omega (arith, lx, out, fit, al));
}
  where
    first : IsTable (pdx va)
    first =
        let z : va + by2pg * 0 ≡ va = omega arith in
        subst (λ x. IsTable (pdx x)) z (tabled 0 (omega arith))

    laid :
        (j : ℕ)
        → j < suc n
        → entry_of pgdir s' (va + by2pg * j) ≡ page_word (u32 (pa + by2pg * j)) perm
    laid zero lj =
        let z : va + by2pg * 0 ≡ va = omega arith in
        let p : u32 (pa + by2pg * 0) ≡ pa = omega (arith, lt) in
        ap (λ x. entry_of pgdir s' x) z
        ∙ r.others va (omega (arith, fit)) first (omega (arith, fit))
        ∙ h.written
        ∙ ap (λ x. page_word x perm) (sym p)
    laid (suc j) lj =
        let z : va + by2pg * suc j ≡ u32 (va + by2pg) + by2pg * j = omega (arith, lj, fit) in
        let p : u32 (u32 (pa + by2pg) + by2pg * j) ≡ u32 (pa + by2pg * suc j) = omega arith in
        ap (λ x. entry_of pgdir s' x) z
        ∙ r.laid j (omega (arith, lj))
        ∙ ap (λ x. page_word x perm) p

no_pages : (end pgdir va pa perm : ℕ) (s : Boot) → map_pages end pgdir 0 va pa perm s ≡ done tt s
unfolding map_pages
no_pages end pgdir va pa perm s = refl

pub map_pages_lem :
    (end pgdir l n va pa perm : ℕ) (s : Boot)
    → IsBoot pgdir s
    → va % by2pg ≡ 0
    → va + by2pg * n ≤ 2 ^ 32
    → pa < 2 ^ 32
    → Tabled n va
    → next_page s ≤ l
    → l ≤ s.maxpa / by2pg
    → (0 < n → Enough pgdir l n va s)
    → (s' : Boot) × (map_pages end pgdir n va pa perm s ≡ done tt s')
      × Laid pgdir l n va pa perm s s'
map_pages_lem end pgdir l zero va pa perm s b al fit lt tabled low high e =
    (s, no_pages end pgdir va pa perm s, Laid-nothing pgdir l va pa perm s b low)
map_pages_lem end pgdir l (suc n) va pa perm s b al fit lt tabled low high e =
    let z : va + by2pg * 0 ≡ va = omega arith in
    let first = subst (λ x. IsTable (pdx x)) z (tabled 0 (omega arith)) in
    let (t, s1, run, h) =
      turn end pgdir l n va (page_word pa perm) s b first high (e (omega arith)) in
    let (s', rest, r) =
      map_pages_lem end pgdir l n (u32 (va + by2pg)) (u32 (pa + by2pg)) perm
        (store t (ptx va) (page_word pa perm) s1) h.boot (omega (arith, al)) (omega (arith, fit))
        (omega arith)
        (λ j lj.
          let k : va + by2pg * suc j ≡ u32 (va + by2pg) + by2pg * j = omega (arith, lj, fit) in
          subst (λ x. IsTable (pdx x)) k (tabled (suc j) (omega (arith, lj))))
        h.bounded (omega (arith, high, h.same_maxpa))
        (λ pos.
          let k : va + by2pg ≡ u32 (va + by2pg) = omega (arith, pos, fit) in
          subst (λ x. Enough pgdir l n x (store t (ptx va) (page_word pa perm) s1)) k
            (h.enough pos)) in
    (
      s',
      turn_run end pgdir n va pa perm t s s1 run ∙ rest,
      Laid-first pgdir l n va pa perm s (store t (ptx va) (page_word pa perm) s1) s' al fit lt
          tabled h r,
    )

-- The pages of a size, and the tables that they may need
abbrev pub pages_of : ℕ → ℕ
pages_of size = (size + 4095) / by2pg

abbrev pub tables_of : ℕ → ℕ → ℕ
tables_of va size = (ptx va + pages_of size + 1023) / 1024

-- `boot_map_segment` returns where memory has room for the tables that its pages may need. Each page from
-- `va` on is then mapped to the page of the same place from `pa` on, with the permissions asked for and
-- the present bit, every other entry is as it was, and the directory's tables stay apart from each other
-- and from it. No more pages are used than that.
pub boot_map_segment-Laid :
    (end pgdir va size pa perm : ℕ) (s : Boot)
    → IsBoot pgdir s
    → va % by2pg ≡ 0
    → va + by2pg * pages_of size ≤ 2 ^ 32
    → pa < 2 ^ 32
    → Tabled (pages_of size) va
    → next_page s + tables_of va size ≤ s.maxpa / by2pg
    → (s' : Boot) × (boot_map_segment end pgdir va size pa perm s ≡ done tt s')
      × Laid pgdir (next_page s + tables_of va size) (pages_of size) va pa perm s s'
unfolding boot_map_segment
boot_map_segment-Laid end pgdir va size pa perm s b al fit lt tabled e =
    map_pages_lem end pgdir (next_page s + tables_of va size) (pages_of size) va pa perm s b al fit
      lt tabled (omega arith) e (λ pos. omega arith)
