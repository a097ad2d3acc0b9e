-- ===== src/Kern/Tests.antt =====
-- The properties of the kernel's modules at concrete states.
pub mod Calls
pub mod Messages
pub mod Keys
pub mod Printing
pub mod Faults
pub mod Start
pub mod Mapping
use demo2s.Base.{
  ℕ, ◌+◌, ◌-◌, ◌*◌, ◌/◌, ◌%◌, ◌^◌, ◌≤◌, ◌<◌, ◌≡◌, ◌≢◌, ◌⊎◌, refl, false, none, some, [], ◌∷◌, arith,
  ◌==◌, ◌&&◌, ◌||◌, if◌then◌else◌, done, ok, u16, ◌∉◌,
}
use demo2s.Kern.Mmu.{ppn, present}
use demo2s.Kern.State.{Trapframe, Env, Status, free, runnable, Kernel, pfm_kill}
use demo2s.Kern.Pmap.{read_entry, page_remove, page_insert}
use demo2s.Kern.Pmap.Space.{Memory, entry, frame, HasTable, Space}
use demo2s.Kern.Pmap.Remove.{page_remove_lem}
use demo2s.Kern.Pmap.Insert.{page_insert_lem, IsMappable}

abbrev pub tf0 : Trapframe
tf0 = record {
  edi = 0;
  esi = 0;
  ebp = 0;
  oesp = 0;
  ebx = 0;
  edx = 0;
  ecx = 0;
  eax = 7;
  es = 35;
  ds = 35;
  trapno = 48;
  errcode = 0;
  eip = 0x800020;
  cs = 27;
  eflags = 512;
  esp = 0xeebfe000;
  ss = 35;
}

abbrev pub env_at : ℕ → ℕ → Status → Env
env_at i parent s = record {
  tf = tf0;
  id = 2048 + i;
  parent_id = parent;
  status = s;
  pgdir = some 1;
  cr3 = 4096;
  ipc_value = 0;
  ipc_from = 0;
  ipc_recving = false;
  ipc_dstva = 0;
  ipc_perm = 0;
  pgfault_handler = 0;
  xstacktop = 0;
  runs = 1;
}

-- Page 1 is a directory, page 2 its only table, which maps page 3 at address 0x5000.
abbrev pub mem0 : Memory
mem0 t i = if t == 1 && i == 0 then 0x2007 else if t == 2 && i == 5 then 0x3007 else 0

-- Environments 1 and 2 run, 1 is the current one and the parent of 2.
abbrev pub kernel0 : Kernel
kernel0 = record {
  mem = mem0;
  refs = λ p. if p == 3 || p == 5 then 1 else 0;
  page_free_list = 6 ∷ 7 ∷ [];
  npage = 8;
  boot_pgdir = 0;
  tlb = [];
  envs = λ i.
      if i == 1 || i == 2 then env_at i (if i == 2 then 2049 else 0) runnable else env_at i 0 free;
  env_free_list = 3 ∷ 4 ∷ [];
  curenv = some 1;
  next_env_id = 1;
  cr3 = 4096;
  utf = tf0;
  cons = record { buf = λ i. i % 256; rpos = 510; wpos = 2 };
  color = 0;
  page_fault_mode = pfm_kill;
}

pub only_table : (i : ℕ) → HasTable 1 mem0 i → i ≡ 0
only_table i h = ground arith

pub mem0-IsSpace : Space 1 kernel0
mem0-IsSpace = record {
  root_used = ground arith;
  table_in = λ i b h. ground (arith, only_table i h);
  table_used = λ i b h. ground (arith, only_table i h);
  table_ne_root = λ i b h. ground (arith, only_table i h);
  tables_ne = λ i j b c ne h h'. absurd (omega (arith, only_table i h, only_table j h', ne));
  page_good = λ i j b h p. (
    ground (arith, only_table i h),
    ground (arith, only_table i h),
    λ l c h'. ground (arith, only_table i h, only_table l h'),
  );
}

page_remove_example :
    (k' : Kernel) × (page_remove 1 0x5000 kernel0 ≡ done tt k')
    × Space 1 k'
    × (read_entry (entry 1 k'.mem 0x5123)
        ≡ (if ppn 0x5000 == ppn 0x5123 then none else read_entry (entry 1 mem0 0x5123)))
    × (k'.refs 3 ≡ (
        if present (entry 1 mem0 0x5000) && frame (entry 1 mem0 0x5000) == 3
        then u16 (kernel0.refs 3 + 2 ^ 16 - 1)
        else kernel0.refs 3))
    × (k'.page_free_list ≡ (
        if present (entry 1 mem0 0x5000) && k'.refs (frame (entry 1 mem0 0x5000)) == 0
        then frame (entry 1 mem0 0x5000) ∷ kernel0.page_free_list
        else kernel0.page_free_list))
page_remove_example =
    page_remove_lem 1 kernel0 0x5000 0x5123 3 mem0-IsSpace (omega arith) (omega arith)

page5-IsMappable : IsMappable 1 kernel0 5
page5-IsMappable = record {
  inside = omega arith;
  small = omega arith;
  used = ground arith;
  counted = ground arith;
  ne_root = omega arith;
  ne_table = λ l b h. ground (arith, only_table l h);
}

page_insert_example :
    (k' : Kernel) × (page_insert 1 5 0x5000 6 kernel0 ≡ done (ok tt) k')
    × Space 1 k'
    × (entry 1 k'.mem 0x5fff
        ≡ (if ppn 0x5000 == ppn 0x5fff then 5 * 4096 + 6 / 2 * 2 + 1 else entry 1 mem0 0x5fff))
    × (k'.refs 3
          + (if present (entry 1 mem0 0x5000) && frame (entry 1 mem0 0x5000) == 3 then 1 else 0)
        ≡ kernel0.refs 3 + (if 5 == 3 then 1 else 0))
    × (5 ∉ k'.page_free_list)
page_insert_example =
    page_insert_lem 1 kernel0 5 0x5000 6 0x5fff 3 mem0-IsSpace (omega arith) (omega arith)
      (omega arith) refl page5-IsMappable (omega arith) (λ _. omega arith)
