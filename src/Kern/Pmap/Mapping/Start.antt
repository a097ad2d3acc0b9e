-- ===== src/Kern/Pmap/Mapping/Start.antt =====
-- The kernel's part of the address space after `i386_vm_init` of kern/pmap.c.
use demo2s.Base.{
  ℕ, ◌+◌, ◌-◌, ◌*◌, ◌/◌, ◌^◌, ◌≤◌, ◌<◌, ◌≡◌, refl, ap, ◌∙◌, M, done, and_then, ◌>>◌, pure, arith,
  ltb_of_le,
}
use demo2s.Kern.Mmu.{by2pg, pdx, kernbase, pte_p, pte_w, pte_u}
use demo2s.Kern.Pmap.Mapping.{
  Boot, pages_array, envs_array, keep_array, paddr, boot_map_segment, map_array, clear_entries,
  create_directory, map_stack, map_kernel, i386_vm_init, kstacktop, kstksize, upages, uenvs, pdmap,
}
use demo2s.Kern.Pmap.Mapping.Memory.{next_page, InMemory, after_page, alloc_page}
use demo2s.Kern.Pmap.Mapping.Tables.{IsTable, IsBoot}
use demo2s.Kern.Pmap.Mapping.Segment.{entry_of, entry_absent}
use demo2s.Kern.Pmap.Mapping.Loop.{Laid, pages_of, tables_of, boot_map_segment-Laid}
use demo2s.Kern.Pmap.Mapping.Arrays.{map_array-Laid}
use demo2s.Kern.Pmap.Mapping.Directory.{
  image_end, first_alloc, directory, directory_absent, directory-IsBoot, directory_run,
}
use demo2s.Kern.Pmap.Mapping.Layout.{KernelSpace, space_of}

stack_run :
    (end pgdir bootstack : ℕ) (s s' : Boot)
    → kernbase ≤ bootstack
    → boot_map_segment end pgdir (kstacktop - kstksize) kstksize (bootstack - kernbase) pte_w s
      ≡ done tt s'
    → map_stack end pgdir bootstack s ≡ done tt s'
unfolding map_stack paddr clear_entries
stack_run end pgdir bootstack s s' le e =
    let g = ltb_of_le bootstack kernbase le in rw (map_stack, g, e) refl

then_on :
    {A : Type 0} (m : M Boot (Unit {0})) (k : M Boot A) (s s1 : Boot)
    → m s ≡ done tt s1
    → and_then (m s) (λ _. k) ≡ k s1
then_on m k s s1 e = ap (λ r. and_then r (λ _. k)) e

kernel_run :
    (end pgdir bootstack ps es : ℕ) (s s3 s4 s5 s6 : Boot)
    → map_stack end pgdir bootstack s ≡ done tt s3
    → boot_map_segment end pgdir kernbase (2 ^ 32 - kernbase) 0 pte_w s3 ≡ done tt s4
    → map_array end pgdir ps pages_array upages s4 ≡ done tt s5
    → map_array end pgdir es envs_array uenvs s5 ≡ done tt s6
    → map_kernel end pgdir bootstack ps es s ≡ done tt s6
unfolding map_kernel
kernel_run end pgdir bootstack ps es s s3 s4 s5 s6 e3 e4 e5 e6 =
    let envs = map_array end pgdir es envs_array uenvs in
    let arrays : M Boot (Unit {0}) = map_array end pgdir ps pages_array upages >> envs in
    let memory = boot_map_segment end pgdir kernbase (2 ^ 32 - kernbase) 0 pte_w in
    then_on (map_stack end pgdir bootstack) (memory >> arrays) s s3 e3
    ∙ then_on memory arrays s3 s4 e4
    ∙ then_on (map_array end pgdir ps pages_array upages) envs s4 s5 e5
    ∙ e6

vm_run :
    (end pgdir bootstack ps es : ℕ) (s s2 s6 : Boot)
    → create_directory end s ≡ done pgdir s2
    → map_kernel end pgdir bootstack ps es s2 ≡ done tt s6
    → i386_vm_init end bootstack ps es s ≡ done pgdir s6
unfolding i386_vm_init
vm_run end pgdir bootstack ps es s s2 s6 e2 e6 =
    ap (λ r. and_then r (λ p. map_kernel end p bootstack ps es >> pure p)) e2
    ∙ then_on (map_kernel end pgdir bootstack ps es) (pure pgdir) s2 s6 e6

-- The four segments of a directory that maps nothing
module _ (end pgdir bootstack ps es : ℕ) (s : Boot) (b : IsBoot pgdir s)
    (empty : (x : ℕ) → IsTable (pdx x) → entry_of pgdir s x ≡ 0)
    (stack_above : kernbase ≤ bootstack) (stack_below : bootstack < 2 ^ 32) (some_pages : 0 < ps)
    (few_pages : ps ≤ pdmap) (some_envs : 0 < es) (few_envs : es ≤ pdmap)
    (room : next_page s + 67 + pages_of ps + pages_of es ≤ s.maxpa / by2pg) where
  IsMapped : Type 0
  IsMapped =
      (s' : Boot) × (map_kernel end pgdir bootstack ps es s ≡ done tt s')
      × IsBoot pgdir s'
      × KernelSpace pgdir bootstack ps es s'

  module _ (s3 : Boot) (l3 : ℕ)
      (run3 : boot_map_segment end pgdir
          (kstacktop - kstksize)
          kstksize
          (bootstack - kernbase)
          pte_w
          s
        ≡ done tt s3)
      (a : Laid pgdir l3
        (pages_of kstksize)
        (kstacktop - kstksize)
        (bootstack - kernbase)
        pte_w
        s
        s3)
      (used3 : l3 ≤ next_page s + 1) where
    module _ (s4 : Boot) (l4 : ℕ)
        (run4 : boot_map_segment end pgdir kernbase (2 ^ 32 - kernbase) 0 pte_w s3 ≡ done tt s4)
        (m : Laid pgdir l4 (pages_of (2 ^ 32 - kernbase)) kernbase 0 pte_w s3 s4)
        (used4 : l4 ≤ next_page s + 65) where
      with_pages :
          (s5 : Boot) (l5 : ℕ)
          → map_array end pgdir ps pages_array upages s4 ≡ done tt s5
          → next_page s4 + pages_of ps ≤ next_page s5
          → Laid pgdir l5
              (pages_of ps)
              upages
              (by2pg * next_page s4)
              (pte_w + pte_u + pte_p)
              (keep_array pages_array (kernbase + by2pg * next_page s4) s4)
              s5
          → l5 ≤ next_page s + 66 + pages_of ps
          → IsMapped
      unfolding IsMapped
      with_pages s5 l5 run5 next c used5 =
          let last : s5.maxpa ≡ s.maxpa = c.same_maxpa ∙ m.same_maxpa ∙ a.same_maxpa in
          let tables : tables_of uenvs es ≤ 1 = omega (arith, few_envs) in
          let (s6, run6, after, d) =
            map_array-Laid end pgdir es envs_array uenvs s5 c.boot some_envs (omega arith)
              (omega (arith, few_envs))
              (λ j lt. (
                omega arith,
                λ z. omega (arith, z, lt, few_envs),
                λ z. omega (arith, z, lt, few_envs),
              ))
              (omega (arith, room, last, c.bounded, used5, tables)) in
          (
            s6,
            kernel_run end pgdir bootstack ps es s s3 s4 s5 s6
                (stack_run end pgdir bootstack s s3 stack_above run3) run4 run5 run6,
            d.boot,
            space_of pgdir bootstack ps es l3 l4 l5
                (next_page s5 + pages_of es + tables_of uenvs es) (next_page s4) (next_page s5) s s3
                s4 s5 s6 empty few_pages few_envs a m c d m.boot.root next
                (omega (arith, after, d.boot.limit)),
          )

      with_memory : IsMapped
      with_memory =
          let last : s4.maxpa ≡ s.maxpa = m.same_maxpa ∙ a.same_maxpa in
          let tables : tables_of upages ps ≤ 1 = omega (arith, few_pages) in
          let (s5, run5, after, c) =
            map_array-Laid end pgdir ps pages_array upages s4 m.boot some_pages (omega arith)
              (omega (arith, few_pages))
              (λ j lt. (
                omega arith,
                λ z. omega (arith, z, lt, few_pages),
                λ z. omega (arith, z, lt, few_pages),
              ))
              (omega (arith, room, last, m.bounded, used4, tables)) in
          with_pages s5 (next_page s4 + pages_of ps + tables_of upages ps) run5 after c
            (omega (arith, m.bounded, used4, tables))

    with_stack : IsMapped
    with_stack =
        let (s4, run4, m) =
          boot_map_segment-Laid end pgdir kernbase (2 ^ 32 - kernbase) 0 pte_w s3 a.boot
            (omega arith) (omega arith) (omega arith)
            (λ j lt. (omega arith, λ z. omega (arith, z, lt), λ z. omega (arith, z, lt)))
            (omega (arith, room, a.bounded, a.same_maxpa, used3)) in
        with_memory s4 (next_page s3 + tables_of kernbase (2 ^ 32 - kernbase)) run4 m
          (omega (arith, a.bounded, used3))

  kernel_mapped : IsMapped
  kernel_mapped =
      let (s3, run3, a) =
        boot_map_segment-Laid end pgdir (kstacktop - kstksize) kstksize (bootstack - kernbase) pte_w
          s b (omega arith) (omega arith) (omega (arith, stack_below))
          (λ j lt. (omega arith, λ z. omega (arith, z, lt), λ z. omega (arith, z, lt)))
          (omega (arith, room)) in
      with_stack s3 (next_page s + tables_of (kstacktop - kstksize) kstksize) run3 a (omega arith)

-- Where memory has room for the arrays and the 68 pages of tables behind the kernel's image, i386_vm_init
-- sets `pages` and `envs` to arrays that lie one behind the other, behind the image and the page directory and
-- before the end of memory, and returns the directory. In it the kernel's stack, all of memory from KERNBASE
-- on, and the two arrays at UPAGES and UENVS are mapped, each page to its own place, and nothing below
-- UENVS. The arrays are mapped with PTE_W and PTE_U.
pub i386_vm_init-KernelSpace :
    (end bootstack ps es : ℕ) (s : Boot)
    → s.freemem ≡ 0
    → kernbase < end
    → s.maxpa < 2 ^ 28
    → kernbase ≤ bootstack
    → bootstack < 2 ^ 32
    → 0 < ps
    → ps ≤ pdmap
    → 0 < es
    → es ≤ pdmap
    → (end - kernbase + 4095) / by2pg + 68 + pages_of ps + pages_of es ≤ s.maxpa / by2pg
    → (s' : Boot) × (pgdir : ℕ) × (i386_vm_init end bootstack ps es s ≡ done pgdir s')
      × (end ≤ kernbase + by2pg * pgdir)
      × IsBoot pgdir s'
      × KernelSpace pgdir bootstack ps es s'
unfolding IsMapped
i386_vm_init-KernelSpace end bootstack ps es s z above small stack_above stack_below some_pages
      few_pages some_envs few_envs room =
    let p = next_page (image_end end s) in
    let m : InMemory (image_end end s) = record {
      above = above;
      small = small;
      below = omega (arith, room);
    } in
    let first : next_page (image_end end s) < s.maxpa / by2pg = omega (arith, room) in
    let made =
      directory_run end p s (after_page (image_end end s))
        (first_alloc end s z above ∙ alloc_page end (image_end end s) m first) in
    let (s', run, b, space) =
      kernel_mapped end p bootstack ps es (directory end s) (directory-IsBoot end s m first)
        (λ x dx. entry_absent p x (directory end s) (directory_absent end s m first (pdx x) dx))
        stack_above stack_below some_pages few_pages some_envs few_envs (omega (arith, room)) in
    (s', p, vm_run end p bootstack ps es s (directory end s) s' made run, omega arith, b, space)
