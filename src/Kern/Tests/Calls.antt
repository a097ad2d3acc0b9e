-- ===== src/Kern/Tests/Calls.antt =====
-- The properties of environments, the scheduler, the console and the system calls at concrete states.
use demo2s.Base.{
  ℕ, ◌+◌, ◌*◌, ◌%◌, ◌^◌, ◌≤◌, ◌<◌, ◌≡◌, ◌≢◌, ◌⊎◌, refl, true, false, inl, inr, some, [], ◌∷◌, arith,
  done, leave, ok, err, bad_env,
}
use demo2s.Kern.Mmu.{pdx, vpt, uvpt}
use demo2s.Kern.State.{runnable, not_runnable, Kernel}
use demo2s.Kern.Pmap.Space.{frame}
use demo2s.Kern.Env.{envid2env, env_alloc, is_free}
use demo2s.Kern.Env.Ids.{IsAllowed, envid2env_sound, envid2env_complete}
use demo2s.Kern.Env.Alloc.{env_alloc_lem}
use demo2s.Kern.Sched.{sched_yield}
use demo2s.Kern.Sched.Fair.{runs_ok, turn, sched_yield_lem}
use demo2s.Kern.Syscall.{sys_ipc_recv}
use demo2s.Kern.Syscall.Laws.{sys_ipc_recv_blocks}
use demo2s.Kern.Tests.{kernel0}

envid2env_sound_example :
    (kernel0 ≡ kernel0)
    × (2 ≡ 2050 % 1024)
    × (is_free (kernel0.envs 2).status ≡ false)
    × ((kernel0.envs 2).id ≡ 2050)
    × ((true ≡ false) ⊎ IsAllowed kernel0 1 2)
envid2env_sound_example = envid2env_sound 2050 1 2 true kernel0 kernel0 (omega arith) refl (
    envid2env_complete 1 2 true kernel0 (omega arith) (omega arith) refl refl refl (inr (inl refl)))

env_alloc_example :
    (k' : Kernel) × (env_alloc 2049 kernel0 ≡ done (ok 3) k')
    × (k'.env_free_list ≡ 4 ∷ [])
    × (k'.page_free_list ≡ 7 ∷ [])
    × ((k'.envs 3).status ≡ runnable)
    × ((k'.envs 3).pgdir ≡ some 6)
    × ((k'.envs 3).cr3 ≡ 6 * 4096)
    × ((k'.envs 3).parent_id ≡ 2049)
    × ((k'.envs 3).id ≡ (kernel0.next_env_id + 1) % 2 ^ 21 * 2 ^ 11 + 3)
    × (k'.refs 6 ≡ kernel0.refs 6)
    × (frame (k'.mem 6 (pdx vpt)) ≡ 6)
    × (frame (k'.mem 6 (pdx uvpt)) ≡ 6)
    × (k'.mem 6 960 ≡ kernel0.mem kernel0.boot_pgdir 960)
env_alloc_example =
    env_alloc_lem kernel0 2049 3 6 960 (4 ∷ []) (7 ∷ []) refl refl (omega arith) (omega arith)
      (omega arith) (omega arith) (omega arith)

sched_yield_example :
    (j : ℕ) × (k' : Kernel) × (sched_yield {A = Unit {0}} kernel0 ≡ leave k')
    × (1 ≤ j)
    × (j < 1024)
    × (runs_ok kernel0 j ≡ true)
    × (turn 1 j ≤ turn 1 2)
    × (k'.curenv ≡ some j)
    × (k'.cr3 ≡ (kernel0.envs j).cr3)
    × ((k'.envs 1).tf ≡ kernel0.utf)
sched_yield_example =
    sched_yield_lem kernel0 1 2 refl (omega arith) (omega arith) (omega arith) refl

sys_ipc_recv_example :
    (j : ℕ) × (k' : Kernel) × (sys_ipc_recv 0x10000000 kernel0 ≡ leave k')
    × (k'.curenv ≡ some j)
    × (j ≢ 1)
    × ((k'.envs 1).status ≡ not_runnable)
    × ((k'.envs 1).ipc_recving ≡ true)
    × ((k'.envs 1).ipc_dstva ≡ 0x10000000)
    × ((k'.envs 1).tf ≡ kernel0.utf)
sys_ipc_recv_example =
    sys_ipc_recv_blocks 0x10000000 1 2 kernel0 refl (omega arith) refl (omega arith) (omega arith)
      (omega arith) (omega arith) refl

abbrev kernel_less : Kernel
kernel_less = record kernel0 { page_free_list = 7 ∷ [] }

no_env_5 : envid2env 5 false kernel_less ≡ done (err bad_env) kernel_less
unfolding envid2env
no_env_5 = refl
