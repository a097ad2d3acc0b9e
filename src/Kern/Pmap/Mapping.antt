-- ===== src/Kern/Pmap/Mapping.antt =====
-- The start of kern/pmap.c: the size of memory, the allocator for the time before there are pages, and the
-- kernel's part of the address space. A word of memory is named by its physical page and its index there.
-- `end` is the address behind the kernel's image, and bootstack's address is an argument.
pub mod Memory
pub mod Tables
pub mod Fresh
pub mod Walk
pub mod Segment
pub mod Loop
pub mod Arrays
pub mod Directory
pub mod Layout
pub mod Start
use demo2s.Base.{
  ℕ, zero, suc, ◌+◌, ◌-◌, ◌*◌, ◌/◌, ◌%◌, ◌^◌, Bool, true, false, ◌&&◌, ◌||◌, Option, none, some, M,
  Run, done, panic, ◌>>=◌, ◌>>◌, and_then, modify, pure, update, ltb, leb, ◌==◌, if◌then◌else◌, u32,
  bit_or,
}
use demo2s.Kern.Mmu.{
  by2pg, pde2pd, pdx, ptx, ppn, pte_addr, pte_p, pte_w, pte_u, present, kernbase, vpt, uvpt, utop,
}
use demo2s.Kern.Pmap.Boot.{extphysmem}

-- What i386_detect_memory finds
pub record Detected : Type 0 where
  pub basemem : ℕ
  pub extmem : ℕ
  pub maxpa : ℕ
  pub npage : ℕ

-- More than 255 MB of extended memory are not used.
abbrev pub clipped : ℕ → ℕ
clipped extmem = if leb (255 * 2 ^ 20) extmem then 255 * 2 ^ 20 - 1 else extmem

abbrev pub last_address : ℕ → ℕ → ℕ
last_address basemem extmem = if extmem == 0 then basemem else extphysmem + extmem

-- `nvram` is NVRAM_BASELO's value, in kilobytes, and `l` and `h` come from the loader.
unfoldable pub i386_detect_memory : ℕ → ℕ → ℕ → Detected
i386_detect_memory nvram l h =
    let basemem = u32 (nvram * 1024) / by2pg * by2pg in
    let extmem = clipped (u32 (l + h + 2 ^ 32 - 2 ^ 20)) in
    record {
      basemem = basemem;
      extmem = extmem;
      maxpa = last_address basemem extmem;
      npage = last_address basemem extmem / by2pg;
    }

pub record Boot : Type 0 where
  pub mem : ℕ → ℕ → ℕ
  pub freemem : ℕ
  pub maxpa : ℕ
  pub pages : ℕ
  pub envs : ℕ

-- `bzero(v, n)`, where the page p is at KERNBASE + p * BY2PG.
abbrev pub cleared : ℕ → ℕ → (ℕ → ℕ → ℕ) → ℕ → ℕ → ℕ
cleared n v m p i =
    let a = kernbase + by2pg * p + 4 * i in if leb v a && ltb a (v + n) then 0 else m p i

-- The chunk's address, once `freemem` is rounded up
abbrev pub chunk : ℕ → ℕ → Boot → ℕ
chunk end align s = u32 ((if s.freemem == 0 then end else s.freemem) + align - 1) / align * align

-- The chunk from v to f, unless memory ends before or f has wrapped
abbrev pub give : ℕ → Bool → ℕ → ℕ → M Boot ℕ
give n clear v f s =
    if ltb (u32 (kernbase + s.maxpa)) f || ltb f v
    then panic
    else done v (record s { freemem = f; mem = if clear then cleared n v s.mem else s.mem })

unfoldable pub alloc : ℕ → ℕ → ℕ → Bool → M Boot ℕ
alloc end n align clear s = give n clear (chunk end align s) (u32 (chunk end align s + n)) s

-- `PADDR(kva)` and the page of `KADDR(pa)`
unfoldable pub paddr : ℕ → M Boot ℕ
paddr kva s = if ltb kva kernbase then panic else done (kva - kernbase) s

unfoldable pub boot_kaddr : ℕ → M Boot ℕ
boot_kaddr pa s = if leb (s.maxpa / by2pg) (ppn pa) then panic else done (ppn pa) s

abbrev pub store : ℕ → ℕ → ℕ → Boot → Boot
store p i w s = record s { mem = update s.mem p (update (s.mem p) i w) }

-- A directory entry for a fresh table
unfoldable pub boot_table : ℕ → ℕ → ℕ → M Boot (Unit {0})
unfolding alloc paddr
boot_table end pgdir va = do
  pte ← alloc end by2pg by2pg true
  pa ← paddr pte
  modify (store pgdir (pdx va) (bit_or (bit_or pa (pte_w + pte_u)) pte_p))

-- The table's page of the entry for `va`; the entry's index there is ptx va. `none` is the null pointer.
unfoldable pub boot_entry : ℕ → ℕ → M Boot (Option ℕ)
unfolding boot_kaddr
boot_entry pgdir va s =
    and_then (boot_kaddr (pte_addr (s.mem pgdir (pdx va))) s) (λ t. pure (some t))

unfoldable pub boot_pgdir_walk : ℕ → ℕ → ℕ → Bool → M Boot (Option ℕ)
unfolding boot_table boot_entry
boot_pgdir_walk end pgdir va create s =
    if present (s.mem pgdir (pdx va))
    then boot_entry pgdir va s
    else if create
    then and_then (boot_table end pgdir va s) (λ _. boot_entry pgdir va)
    else done none s

-- `*pte = w`; a null pointer has no page there.
abbrev pub store_entry : ℕ → ℕ → Option ℕ → M Boot (Unit {0})
store_entry i w none s = panic
store_entry i w (some t) s = done tt (store t i w s)

-- The loop over n pages
unfoldable pub map_pages : ℕ → ℕ → ℕ → ℕ → ℕ → ℕ → M Boot (Unit {0})
unfolding boot_pgdir_walk
map_pages end pgdir zero va pa perm = pure tt
map_pages end pgdir (suc n) va pa perm = do
  t ← boot_pgdir_walk end pgdir va true
  store_entry (ptx va) (bit_or (bit_or (pte_addr pa) perm) pte_p) t
  map_pages end pgdir n (u32 (va + by2pg)) (u32 (pa + by2pg)) perm

unfoldable pub boot_map_segment : ℕ → ℕ → ℕ → ℕ → ℕ → ℕ → M Boot (Unit {0})
unfolding map_pages
boot_map_segment end pgdir va size pa perm = map_pages end pgdir ((size + 4095) / by2pg) va pa perm

-- inc/mmu.h
abbrev pub pdmap : ℕ
pdmap = 2 ^ 22

abbrev pub kstacktop : ℕ
kstacktop = vpt

abbrev pub kstksize : ℕ
kstksize = 8 * by2pg

abbrev pub upages : ℕ
upages = uvpt - pdmap

abbrev pub uenvs : ℕ
uenvs = utop

unfoldable pub clear_entries : ℕ → ℕ → ℕ → Boot → Boot
clear_entries pgdir zero i s = s
clear_entries pgdir (suc n) i s = clear_entries pgdir n (i + 1) (store pgdir i 0 s)

-- The pointers `pages` and `envs`
pub data Array : Type 0 where
  pages_array envs_array : Array

abbrev pub keep_array : Array → ℕ → Boot → Boot
keep_array a v s = record s {
  pages = elim a [ pages_array ↦ v | envs_array ↦ s.pages ];
  envs = elim a [ pages_array ↦ s.envs | envs_array ↦ v ];
}

-- An array that the user sees at `va`
unfoldable pub map_array : ℕ → ℕ → ℕ → Array → ℕ → M Boot (Unit {0})
unfolding alloc paddr boot_map_segment
map_array end pgdir n a va = do
  v ← alloc end n by2pg true
  modify (keep_array a v)
  pa ← paddr v
  boot_map_segment end pgdir va n pa (pte_w + pte_u + pte_p)

-- The page directory with itself as the table of VPT and UVPT
unfoldable pub create_directory : ℕ → M Boot ℕ
unfolding alloc paddr
create_directory end = do
  v ← alloc end by2pg by2pg true
  pa ← paddr v
  modify (store (ppn pa) (pdx vpt) (bit_or (bit_or pa pte_w) pte_p))
  modify (store (ppn pa) (pdx uvpt) (bit_or (bit_or pa pte_u) pte_p))
  pure (ppn pa)

unfoldable pub map_stack : ℕ → ℕ → ℕ → M Boot (Unit {0})
unfolding paddr boot_map_segment clear_entries
map_stack end pgdir bootstack = do
  pa ← paddr bootstack
  boot_map_segment end pgdir (kstacktop - kstksize) kstksize pa pte_w
  modify (
      clear_entries pgdir (pdx (kstacktop - kstksize) - pdx (kstacktop - pdmap))
        (pdx (kstacktop - pdmap)))

unfoldable pub map_kernel : ℕ → ℕ → ℕ → ℕ → ℕ → M Boot (Unit {0})
unfolding boot_map_segment map_array map_stack
map_kernel end pgdir bootstack pages_size envs_size = do
  map_stack end pgdir bootstack
  boot_map_segment end pgdir kernbase (2 ^ 32 - kernbase) 0 pte_w
  map_array end pgdir pages_size pages_array upages
  map_array end pgdir envs_size envs_array uenvs

-- i386_vm_init up to the check of its result. `pages_size` and `envs_size` are the sizes of the arrays.
unfoldable pub i386_vm_init : ℕ → ℕ → ℕ → ℕ → M Boot ℕ
unfolding create_directory map_kernel
i386_vm_init end bootstack pages_size envs_size = do
  pgdir ← create_directory end
  map_kernel end pgdir bootstack pages_size envs_size
  pure pgdir
