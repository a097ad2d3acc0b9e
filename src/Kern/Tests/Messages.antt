-- ===== src/Kern/Tests/Messages.antt =====
-- Messages with a page at a concrete state.
use demo2s.Base.{
  ◌+◌, ◌*◌, ◌/◌, ◌≡◌, refl, arith, ◌==◌, if◌then◌else◌, done, ok, true, false, inl, update, some,
}
use demo2s.Kern.Mmu.{ppn}
use demo2s.Kern.State.{Kernel, not_runnable, runnable}
use demo2s.Kern.Pmap.Space.{entry, frame}
use demo2s.Kern.Pmap.Insert.{IsMappable}
use demo2s.Kern.Env.{envid2env}
use demo2s.Kern.Env.Ids.{envid2env_complete}
use demo2s.Kern.Syscall.{sys_ipc_can_send}
use demo2s.Kern.Syscall.Message.{sys_ipc_can_send_page, sys_ipc_can_send_unmapped}
use demo2s.Kern.Tests.{kernel0, mem0, mem0-IsSpace, only_table}

-- Environment 2 waits for a page at 0x7000.
abbrev kernel1 : Kernel
kernel1 = record kernel0 {
  envs =
      update kernel0.envs 2
        (record (kernel0.envs 2) { status = not_runnable; ipc_recving = true; ipc_dstva = 0x7000 });
}

finds_2 : envid2env 2050 false kernel1 ≡ done (ok (some 2)) kernel1
finds_2 = envid2env_complete 1 2 false kernel1 (omega arith) (omega arith) refl refl refl (inl refl)

page3-IsMappable : IsMappable 1 kernel1 3
page3-IsMappable = record {
  inside = omega arith;
  small = omega arith;
  used = ground arith;
  counted = ground arith;
  ne_root = omega arith;
  ne_table = λ l b h. ground (arith, only_table l h);
}

sys_ipc_can_send_page_example :
    (k' : Kernel) × (sys_ipc_can_send 2050 42 0x5000 7 kernel1 ≡ done (ok tt) k')
    × (entry 1 k'.mem 0x7123 ≡ (
        if ppn 0x7000 == ppn 0x7123
        then frame (entry 1 mem0 0x5000) * 4096 + 7 / 2 * 2 + 1
        else entry 1 mem0 0x7123))
    × ((k'.envs 2).ipc_value ≡ 42)
    × ((k'.envs 2).ipc_from ≡ 2049)
    × ((k'.envs 2).ipc_perm ≡ 7)
    × ((k'.envs 2).ipc_recving ≡ false)
    × ((k'.envs 2).status ≡ runnable)
sys_ipc_can_send_page_example =
    sys_ipc_can_send_page 2050 42 0x5000 7 1 2 1 1 0x7123 kernel1 refl finds_2 refl (omega arith)
      (omega arith) (omega arith) (omega arith) (omega arith) refl (omega arith) refl refl
      mem0-IsSpace mem0-IsSpace refl refl refl page3-IsMappable

-- Nothing is mapped at 0x6000.
page0-IsMappable : IsMappable 1 kernel1 0
page0-IsMappable = record {
  inside = omega arith;
  small = omega arith;
  used = ground arith;
  counted = ground arith;
  ne_root = omega arith;
  ne_table = λ l b h. ground (arith, only_table l h);
}

sys_ipc_can_send_unmapped_example :
    (k' : Kernel) × (sys_ipc_can_send 2050 42 0x6000 7 kernel1 ≡ done (ok tt) k')
    × (entry 1 k'.mem 0x7123
        ≡ (if ppn 0x7000 == ppn 0x7123 then 7 / 2 * 2 + 1 else entry 1 mem0 0x7123))
    × ((k'.envs 2).ipc_value ≡ 42)
    × ((k'.envs 2).ipc_from ≡ 2049)
    × ((k'.envs 2).ipc_perm ≡ 7)
    × ((k'.envs 2).ipc_recving ≡ false)
    × ((k'.envs 2).status ≡ runnable)
sys_ipc_can_send_unmapped_example =
    sys_ipc_can_send_unmapped 2050 42 0x6000 7 1 2 1 1 0x7123 kernel1 refl finds_2 refl
      (omega arith) (omega arith) (omega arith) (omega arith) (omega arith) refl (omega arith) refl
      refl mem0-IsSpace mem0-IsSpace refl refl refl page0-IsMappable
