-- ===== src/Kern/Tests/Faults.antt =====
-- A page fault in user mode at a concrete state.
use demo2s.Base.{ℕ, ◌+◌, ◌/◌, ◌%◌, ◌≡◌, ◌≢◌, refl, leave, some, arith, update}
use demo2s.Kern.State.{Kernel, runnable}
use demo2s.Kern.Trap.{page_fault_handler, written_page}
use demo2s.Kern.Trap.Push.{IsStack, page_fault_handler_lem}
use demo2s.Kern.Tests.{kernel0, env_at, tf0}

-- Environment 1 has a handler, and its exception stack is the page at 0x5000.
abbrev kernel1 : Kernel
kernel1 = record kernel0 {
  envs =
      update kernel0.envs 1
        (record (env_at 1 0 runnable) { pgfault_handler = 0x800100; xstacktop = 0x6000 });
}

kernel1-IsStack : IsStack 0x5ffc 3 kernel1
unfolding written_page
kernel1-IsStack = record { mapped = refl; not_dir = omega arith; not_table = omega arith }

page_fault_handler_lem_example :
    (esp : ℕ) × (k' : Kernel) × (page_fault_handler 0x123 tf0 kernel1 ≡ leave k')
    × ((k'.envs 1).tf ≡ record tf0 { eip = 0x800100; esp = esp })
    × (k'.curenv ≡ some 1)
    × (k'.cr3 ≡ 4096)
    × ((k'.envs 1).runs ≡ 2)
    × (esp + 36 ≡ 0x5ffc)
    × (k'.mem 3 (esp % 4096 / 4 + 0) ≡ 0x123)
    × (k'.mem 3 (esp % 4096 / 4 + 1) ≡ tf0.errcode)
    × (k'.mem 3 (esp % 4096 / 4 + 2) ≡ tf0.esp)
    × (k'.mem 3 (esp % 4096 / 4 + 3) ≡ tf0.eflags)
    × (k'.mem 3 (esp % 4096 / 4 + 4) ≡ tf0.eip)
    × ((q : ℕ) → 3 ≢ q → k'.mem q ≡ kernel1.mem q)
page_fault_handler_lem_example =
    page_fault_handler_lem 1 0x123 3 tf0 kernel1 refl refl (omega arith) refl (omega arith)
      (omega arith) kernel1-IsStack
