-- ===== src/Kern/Syscall/Laws.antt =====
-- What the system calls for messages and memory do to the state.
use demo2s.Base.{
  ℕ, ◌≤◌, ◌<◌, ◌≡◌, ◌≢◌, refl, subst, ==_refl, true, false, some, ◌∷◌, List, arith, if◌then◌else◌,
  done, ok, err, Error, ipc_not_recv, Bool-cases, inl, inr, leave, ◌∙◌,
}
use demo2s.Kern.Mmu.{utop}
use demo2s.Kern.State.{Kernel, not_runnable}
use demo2s.Kern.Env.Alloc.{page_alloc-cons}
use demo2s.Kern.Env.{envid2env}
use demo2s.Kern.Sched.{choose, run_state, sched_yield}
use demo2s.Kern.Sched.Fair.{runs_ok, IsTurn, choose-IsTurn}
use demo2s.Kern.Syscall.{
  sys_ipc_can_send, sys_ipc_recv, sys_mem_alloc, update_env, receive, receiving,
}

-- A message without a page: the target must have asked for one, else nothing changes and the caller
-- gets E_IPC_NOT_RECV. If it has, it gets the sender's id and the value, no page permission, is no
-- longer receiving, and becomes runnable; nothing else changes.
pub sys_ipc_can_send_value :
    (envid value perm c e : ℕ) (k : Kernel)
    → k.curenv ≡ some c
    → envid2env envid false k ≡ done (ok (some e)) k
    → sys_ipc_can_send envid value 0 perm k ≡ (
        if (k.envs e).ipc_recving
        then done (ok tt) (update_env e (receive (k.envs c).id value 0) k)
        else done (err ipc_not_recv) k)
unfolding sys_ipc_can_send
sys_ipc_can_send_value envid value perm c e k cur found =
    rw found (elim (Bool-cases (k.envs e).ipc_recving) [ inl r ↦ rw (r, cur) | inr r ↦ rw r ])

recv_run :
    (dstva c : ℕ) (k : Kernel)
    → k.curenv ≡ some c
    → (k.envs c).ipc_recving ≡ false
    → dstva < utop
    → sys_ipc_recv dstva k ≡ sched_yield (update_env c (receiving dstva) k)
unfolding sys_ipc_recv
recv_run dstva c k cur idle low = ground arith

yield_run : (k : Kernel) → sched_yield {A = Unit {0}} k ≡ leave (run_state (choose k) k)
unfolding sched_yield
yield_run k = refl

-- A switch changes the trap frames and run counts only.
kept :
    (k : Kernel) (c j : ℕ)
    → k.curenv ≡ some c
    → (((run_state j k).envs c).status ≡ (k.envs c).status)
      × (((run_state j k).envs c).ipc_recving ≡ (k.envs c).ipc_recving)
      × (((run_state j k).envs c).ipc_dstva ≡ (k.envs c).ipc_dstva)
      × (((run_state j k).envs c).tf ≡ k.utf)
      × ((run_state j k).curenv ≡ some j)
unfolding run_state
kept k c j cur = (ground arith, ground arith, ground arith, ground arith, refl)

-- A receive that is in order blocks: while another environment i is runnable, `sys_ipc_recv` switches
-- to one that is not the caller, and leaves the caller not runnable and receiving at the address.
pub sys_ipc_recv_blocks :
    (dstva c i : ℕ) (k : Kernel)
    → k.curenv ≡ some c
    → c < 1024
    → (k.envs c).ipc_recving ≡ false
    → dstva < utop
    → 1 ≤ i
    → i < 1024
    → i ≢ c
    → runs_ok k i ≡ true
    → (j : ℕ) × (k' : Kernel) × (sys_ipc_recv dstva k ≡ leave k')
      × (k'.curenv ≡ some j)
      × (j ≢ c)
      × ((k'.envs c).status ≡ not_runnable)
      × ((k'.envs c).ipc_recving ≡ true)
      × ((k'.envs c).ipc_dstva ≡ dstva)
      × ((k'.envs c).tf ≡ k.utf)
sys_ipc_recv_blocks dstva c i k cur hc idle low h1 h2 ne r =
    let blocked : Kernel = update_env c (receiving dstva) k in
    let t : IsTurn blocked c i (choose blocked) =
      choose-IsTurn blocked c i cur hc h1 h2 (ground arith) in
    let q = kept blocked c (choose blocked) cur in
    (
      choose blocked,
      run_state (choose blocked) blocked,
      recv_run dstva c k cur idle low ∙ yield_run blocked,
      q.4,
      λ eq.
          let awake : runs_ok blocked c ≡ true = subst (λ x. runs_ok blocked x ≡ true) eq t.2 in
          let asleep : runs_ok blocked c ≡ false = rw (==_refl c) in cc,
      ground (arith, q),
      ground (arith, q),
      ground (arith, q),
      q.3,
    )

-- When the environment is not there `sys_mem_alloc` fails, but the page that it has taken off the
-- free list is lost: it is put back nowhere.
pub sys_mem_alloc_leak :
    (envid va perm p : ℕ) (e : Error) (pages : List ℕ) (k : Kernel)
    → va < utop
    → k.page_free_list ≡ p ∷ pages
    → envid2env envid false (record k { page_free_list = pages })
      ≡ done (err e) (record k { page_free_list = pages })
    → sys_mem_alloc envid va perm k ≡ done (err e) (record k { page_free_list = pages })
unfolding sys_mem_alloc
sys_mem_alloc_leak envid va perm p e pages k low pe missing =
    ground (arith, page_alloc-cons k p pages pe, missing)
