-- ===== src/Kern/Pmap/Mapping/Layout.antt =====
-- The segments that `i386_vm_init` of kern/pmap.c maps, side by side.
use demo2s.Base.{ℕ, ◌+◌, ◌-◌, ◌*◌, ◌/◌, ◌%◌, ◌^◌, ◌≤◌, ◌<◌, ◌≡◌, ap, sym, ◌∙◌, u32, arith}
use demo2s.Kern.Mmu.{by2pg, pdx, kernbase, pte_p, pte_w, pte_u}
use demo2s.Kern.Pmap.Mapping.{
  Boot, pages_array, envs_array, keep_array, kstacktop, kstksize, upages, uenvs, pdmap,
}
use demo2s.Kern.Pmap.Mapping.Tables.{IsTable}
use demo2s.Kern.Pmap.Mapping.Segment.{entry_of}
use demo2s.Kern.Pmap.Mapping.Loop.{Laid, pages_of, page_word}

-- What addresses of the kernel's part are mapped to: the stack, all of memory from KERNBASE on, and the
-- arrays, which lie one behind the other between the directory's page and the end of memory, from page
-- boundaries on. Nothing is mapped below them.
pub record KernelSpace (pgdir bootstack pages_size envs_size : ℕ) (s : Boot) : Type 0 where
  pub pages_behind : kernbase + by2pg * (pgdir + 1) ≤ s.pages
  pub envs_behind : s.pages + pages_size ≤ s.envs
  pub arrays_end : s.envs + envs_size ≤ kernbase + s.maxpa
  pub aligned : (s.pages % by2pg ≡ 0) × (s.envs % by2pg ≡ 0)
  pub stack :
      (j : ℕ)
      → j < 8
      → entry_of pgdir s (kstacktop - kstksize + by2pg * j)
        ≡ page_word (u32 (bootstack - kernbase + by2pg * j)) pte_w
  pub memory :
      (j : ℕ) → j < 2 ^ 16 → entry_of pgdir s (kernbase + by2pg * j) ≡ page_word (by2pg * j) pte_w
  pub pages_image :
      (j : ℕ)
      → j < pages_of pages_size
      → entry_of pgdir s (upages + by2pg * j)
        ≡ page_word (u32 (s.pages - kernbase + by2pg * j)) (pte_w + pte_u + pte_p)
  pub envs_image :
      (j : ℕ)
      → j < pages_of envs_size
      → entry_of pgdir s (uenvs + by2pg * j)
        ≡ page_word (u32 (s.envs - kernbase + by2pg * j)) (pte_w + pte_u + pte_p)
  pub nothing : (x : ℕ) → x < uenvs → entry_of pgdir s x ≡ 0

pub space_of :
    (pgdir bootstack ps es l3 l4 l5 l6 pages envs : ℕ) (s s3 s4 s5 s6 : Boot)
    → ((x : ℕ) → IsTable (pdx x) → entry_of pgdir s x ≡ 0)
    → ps ≤ pdmap
    → es ≤ pdmap
    → Laid pgdir l3 (pages_of kstksize) (kstacktop - kstksize) (bootstack - kernbase) pte_w s s3
    → Laid pgdir l4 (pages_of (2 ^ 32 - kernbase)) kernbase 0 pte_w s3 s4
    → Laid pgdir l5
        (pages_of ps)
        upages
        (by2pg * pages)
        (pte_w + pte_u + pte_p)
        (keep_array pages_array (kernbase + by2pg * pages) s4)
        s5
    → Laid pgdir l6
        (pages_of es)
        uenvs
        (by2pg * envs)
        (pte_w + pte_u + pte_p)
        (keep_array envs_array (kernbase + by2pg * envs) s5)
        s6
    → pgdir < pages
    → pages + pages_of ps ≤ envs
    → envs + pages_of es ≤ s6.maxpa / by2pg
    → KernelSpace pgdir bootstack ps es s6
space_of pgdir bootstack ps es l3 l4 l5 l6 pages envs s s3 s4 s5 s6 empty few_pages few_envs a b c d
      behind next last =
    let pages_at : s6.pages ≡ kernbase + by2pg * pages = d.same_arrays.0 ∙ c.same_arrays.0 in
    let envs_at : s6.envs ≡ kernbase + by2pg * envs = d.same_arrays.1 in
    let pages_frame : s6.pages - kernbase ≡ by2pg * pages = omega (arith, pages_at) in
    let envs_frame : s6.envs - kernbase ≡ by2pg * envs = omega (arith, envs_at) in
    record {
      pages_behind = omega (arith, pages_at, behind);
      envs_behind = omega (arith, pages_at, envs_at, next);
      arrays_end = omega (arith, envs_at, last);
      aligned = (omega (arith, pages_at), omega (arith, envs_at));
      stack = λ j lt.
          let x = kstacktop - kstksize + by2pg * j in
          let t : IsTable (pdx x) =
            (omega arith, λ z. omega (arith, z, lt), λ z. omega (arith, z, lt)) in
          d.others x (omega (arith, lt)) t (omega (arith, few_envs))
          ∙ c.others x (omega (arith, lt)) t (omega (arith, few_pages))
          ∙ b.others x (omega (arith, lt)) t (omega (arith, lt))
          ∙ a.laid j (omega (arith, lt));
      memory = λ j lt.
          let x = kernbase + by2pg * j in
          let t : IsTable (pdx x) =
            (omega arith, λ z. omega (arith, z, lt), λ z. omega (arith, z, lt)) in
          let p : u32 (0 + by2pg * j) ≡ by2pg * j = omega (arith, lt) in
          d.others x (omega (arith, lt)) t (omega (arith, few_envs))
          ∙ c.others x (omega (arith, lt)) t (omega (arith, few_pages))
          ∙ b.laid j (omega (arith, lt))
          ∙ ap (λ q. page_word q pte_w) p;
      pages_image = λ j lt.
          let x = upages + by2pg * j in
          let t : IsTable (pdx x) = (
            omega arith,
            λ z. omega (arith, z, lt, few_pages),
            λ z. omega (arith, z, lt, few_pages),
          ) in
          d.others x (omega (arith, lt, few_pages)) t (omega (arith, few_envs))
          ∙ c.laid j lt
          ∙ ap (λ f. page_word (u32 (f + by2pg * j)) (pte_w + pte_u + pte_p)) (sym pages_frame);
      envs_image = λ j lt.
          d.laid j lt
          ∙ ap (λ f. page_word (u32 (f + by2pg * j)) (pte_w + pte_u + pte_p)) (sym envs_frame);
      nothing = λ x lt.
          let t : IsTable (pdx x) =
            (omega arith, λ z. omega (arith, z, lt), λ z. omega (arith, z, lt)) in
          d.others x (omega (arith, lt)) t (omega (arith, lt))
          ∙ c.others x (omega (arith, lt)) t (omega (arith, lt))
          ∙ b.others x (omega (arith, lt)) t (omega (arith, lt))
          ∙ a.others x (omega (arith, lt)) t (omega (arith, lt))
          ∙ empty x t;
    }
