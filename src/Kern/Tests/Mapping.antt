-- ===== src/Kern/Tests/Mapping.antt =====
-- The kernel's address space on a machine with 64 MB.
use demo2s.Base.{ℕ, ◌+◌, ◌*◌, ◌≤◌, ◌≡◌, refl, done, arith}
use demo2s.Kern.Mmu.{by2pg, kernbase, pte_w}
use demo2s.Kern.Pmap.Mapping.{Boot, boot_map_segment, i386_vm_init}
use demo2s.Kern.Pmap.Mapping.Tables.{IsBoot}
use demo2s.Kern.Pmap.Mapping.Memory.{next_page}
use demo2s.Kern.Pmap.Mapping.Loop.{Laid, pages_of, tables_of, boot_map_segment-Laid}
use demo2s.Kern.Pmap.Mapping.Layout.{KernelSpace}
use demo2s.Kern.Pmap.Mapping.Start.{i386_vm_init-KernelSpace}

-- Before the first allocation, and with a directory at page 290 that maps nothing
abbrev machine : Boot
machine = record { mem = λ p i. 170; freemem = 0; maxpa = 0x4000000; pages = 0; envs = 0 }

abbrev mapped_nothing : Boot
mapped_nothing = record {
  mem = λ p i. 0;
  freemem = 0xf012c000;
  maxpa = 0x4000000;
  pages = 0;
  envs = 0;
}

-- The kernel ends at 0xf0120100; the arrays have 196608 and 131072 bytes.
i386_vm_init-KernelSpace_example :
    (s' : Boot) × (pgdir : ℕ) × (i386_vm_init 0xf0120100 0xf0110000 196608 131072 machine
      ≡ done pgdir s')
    × (0xf0120100 ≤ kernbase + by2pg * pgdir)
    × IsBoot pgdir s'
    × KernelSpace pgdir 0xf0110000 196608 131072 s'
i386_vm_init-KernelSpace_example =
    i386_vm_init-KernelSpace 0xf0120100 0xf0110000 196608 131072 machine refl (omega arith)
      (omega arith) (omega arith) (omega arith) (omega arith) (omega arith) (omega arith)
      (omega arith) (omega arith)

mapped_nothing-IsBoot : IsBoot 290 mapped_nothing
mapped_nothing-IsBoot = record {
  memory = record { above = omega arith; small = omega arith; below = omega arith };
  limit = omega arith;
  root = omega arith;
  table = λ d id p. absurd (ground (arith, p));
  own = λ d e id ie pd pe same. absurd (ground (arith, pd));
}

-- Three pages from UPAGES on
boot_map_segment-Laid_example :
    (s' : Boot) × (boot_map_segment 0 290 0xef000000 10000 0x5000 pte_w mapped_nothing ≡ done tt s')
    × Laid 290
        (next_page mapped_nothing + tables_of 0xef000000 10000)
        (pages_of 10000)
        0xef000000
        0x5000
        pte_w
        mapped_nothing
        s'
boot_map_segment-Laid_example =
    boot_map_segment-Laid 0 290 0xef000000 10000 0x5000 pte_w mapped_nothing mapped_nothing-IsBoot
      (omega arith) (omega arith) (omega arith)
      (λ j lt. (omega arith, λ z. omega (arith, z, lt), λ z. omega (arith, z, lt))) (omega arith)
